-- ===== src/Server/Flush/Dialer/Balance.antt =====
-- server/flush/flush.go and server/ssh/client.go: the SSH connections that a flush leaves open. A
-- connection has a number, and `open` tells which are open.
use mathlib.Core.Path.{subst}
use mathlib.Core.Option.{some-injective}
use tiny_file_watcher.Prelude.{
  ℕ, ◌≡◌, sym, ap, ◌∙◌, String, Bool, true, false, not, ◌&&◌, ◌||◌, some, List, [], ◌∷◌, ◌⊎◌, ◌⊎◌,
  ◌==◌, any, nat_eq, nat_eq_iff, inl, inr, Bool-cases, Option-cases,
}
use tiny_file_watcher.Internal.FilePath.{join}
use tiny_file_watcher.Server.Outcome.{Result, ok, err, outcome-cases}
use tiny_file_watcher.Server.Database.Files.{PendingFlush}
use tiny_file_watcher.Server.Flush.Transfer.{
  SftpClient, SftpDialer, MachineConfig, Pool, cached, get, close_all,
}
use tiny_file_watcher.Server.Flush.Job.{FlushJob, config, transfer_pending_file, transfer_all}
use tiny_file_watcher.Server.Flush.Dialer.Quiet.{IsQuiet, transfer_file-Keeps}

pub true≢false : ¬ (true ≡ false)
true≢false h = cc

pub neither : {a c : Bool} (b : Bool) → a ≡ (b || c) → a ≡ false → c ≡ false
neither true e f = absurd (true≢false (sym e ∙ f))
neither false e f = sym e ∙ f

both : {o p : Bool} (a b c : Bool) → o ≡ (a || p) → p ≡ (b || c) → o ≡ ((a || b) || c)
both true b c e f = e
both false b c e f = e ∙ f

module _ {N : Type 0} (open_now : N → ℕ → Bool) where
  -- closing the client closes the connection with the number, and nothing else
  abbrev pub Closes : ℕ → (N → N) → Type 0
  Closes i close = (s : N) (k : ℕ) → open_now (close s) k ≡ (not (nat_eq k i) && open_now s k)

  pub record IsOwner (i : ℕ) (c : SftpClient N) : Type 0 where
    pub quiet : IsQuiet open_now c
    pub closes : Closes i c.close

  -- a connection that was not open is open as well
  abbrev pub Opens : ℕ → N → N → Type 0
  Opens i s t = (open_now s i ≡ false) × ((k : ℕ) → open_now t k ≡ (nat_eq k i || open_now s k))

  -- what a dial gives: a client for a new connection, or nothing
  abbrev pub Dials : N → Result (Unit {0}) (SftpClient N) × N → Type 0
  Dials s (ok c, t) = (i : ℕ) × IsOwner i c × Opens i s t
  Dials s (err e, t) = (k : ℕ) → open_now t k ≡ open_now s k

  abbrev pub IsBalanced : SftpDialer N → Type 0
  IsBalanced dial = (cfg : MachineConfig) (s : N) → Dials s (dial cfg s)

  module _ (start : N) where
    -- the numbers of the clients of a pool, none of which was open at the start
    abbrev pub Numbered : List (String × SftpClient N) → List ℕ → Type 0
    Numbered [] [] = Unit
    Numbered [] (i ∷ is) = ⊥
    Numbered (kc ∷ cs) [] = ⊥
    Numbered (kc ∷ cs) (i ∷ is) = IsOwner i kc.1 × (open_now start i ≡ false) × Numbered cs is

    -- those of the pool are open, and those that were open at the start
    abbrev pub Holds : Pool N → Type 0
    Holds p =
        (is : List ℕ) × Numbered p.clients is
        × ((k : ℕ) → open_now p.remote k ≡ (any (nat_eq k) is || open_now start k))

    abbrev Got : Result (Unit {0}) (SftpClient N) × Pool N → Type 0
    Got (ok c, q) = (i : ℕ) × IsOwner i c × Holds q
    Got (err e, q) = Holds q

    cached-IsOwner :
        (name : String) (cs : List (String × SftpClient N)) (is : List ℕ) (c : SftpClient N)
        → Numbered cs is
        → cached name cs ≡ some c
        → (i : ℕ) × IsOwner i c
    cached-IsOwner name [] is c n h = cc
    cached-IsOwner name ((k, d) ∷ cs) [] c n h = absurd n
    cached-IsOwner name ((k, d) ∷ cs) (i ∷ is) c (o, z, n) h = elim (Bool-cases (k == name)) [
      | inl e ↦ (i, subst (λ x. IsOwner i x) (some-injective d c (rw e at h)) o)
      | inr e ↦ cached-IsOwner name cs is c n (rw e at h)
    ]

    get-Got :
        (dial : SftpDialer N) (cfg : MachineConfig) (p : Pool N)
        → IsBalanced dial
        → Holds p
        → Got (get dial cfg p)
    unfolding get
    get-Got dial cfg p balanced (is, n, o) = elim (Option-cases (cached cfg.name p.clients)) [
      | inl e ↦
          let d = balanced cfg p.remote in
          rw (e, get)
            (elim (outcome-cases (dial cfg p.remote)) [
              | inl (c, r, x) ↦
                  let (i, owner, (fresh, now)) = (rw x at d) in
                  let new : open_now start i ≡ false = neither (any (nat_eq i) is) (o i) fresh in
                  rw x (
                    i,
                    owner,
                    (
                      i ∷ is,
                      (owner, new, n),
                      λ k. both (nat_eq k i) (any (nat_eq k) is) (open_now start k) (now k) (o k),
                    ),
                  )
              | inr (u, r, x) ↦ rw x (is, n, λ k. (rw x at d) k ∙ o k)
            ])
      | inr (c, e) ↦
          let (i, owner) = cached-IsOwner cfg.name p.clients is c n e in
          rw (e, get) (i, owner, (is, n, o))
    ]

    module _ {D : Type 0} (j : FlushJob D N) (balanced : IsBalanced j.dialer) where
      transfer_pending_file-Holds :
          (pf : PendingFlush) (p : Pool N) → Holds p → Holds (transfer_pending_file j pf p).1
      unfolding transfer_pending_file
      transfer_pending_file-Holds pf p h =
          let first = get-Got j.dialer (config pf.machine) p balanced h in
          elim (outcome-cases (get j.dialer (config pf.machine) p)) [
            | inl (c, q, e) ↦
                let (i, oc, hq) = (rw e at first) in
                let second = get-Got j.dialer (config pf.target_machine) q balanced hq in
                rw e (elim (outcome-cases (get j.dialer (config pf.target_machine) q)) [
                  | inl (d, s, b) ↦
                      let (i, od, (is, n, o)) = (rw b at second) in
                      let kept =
                        transfer_file-Keeps open_now c d oc.quiet od.quiet
                          (join pf.file_path pf.file_name) (join pf.target_path pf.file_name)
                          s.remote in
                      rw b (is, n, λ k. ap (λ f. f k) kept ∙ o k)
                  | inr (x, s, b) ↦ rw b (rw b at second)
                ])
            | inr (x, q, e) ↦ rw e (rw e at first)
          ]

      pub transfer_all-Holds :
          (pfs : List PendingFlush) (p : Pool N) → Holds p → Holds (transfer_all j pfs p).1
      unfolding transfer_all
      transfer_all-Holds [] p h = h
      transfer_all-Holds (pf ∷ pfs) p h =
          let head = transfer_pending_file-Holds pf p h in
          elim (outcome-cases (transfer_pending_file j pf p)) [
            | inl (n, q, e) ↦
                let rest = transfer_all-Holds pfs q (rw e at head) in
                rw e (elim (outcome-cases (transfer_all j pfs q)) [
                  | inl (ids, s, b) ↦ rw b (rw b at rest)
                  | inr (x, s, b) ↦ rw b (rw b at rest)
                ])
            | inr (x, q, e) ↦ rw e (rw e at head)
          ]

    -- what is open and is not among the numbers was open at the start, and the converse
    abbrev pub Leaves : List ℕ → N → Type 0
    Leaves is s = (k : ℕ) → (any (nat_eq k) is ≡ true) ⊎ (open_now s k ≡ open_now start k)

    close-Leaves :
        (i : ℕ) (is : List ℕ) (c : SftpClient N) (s : N)
        → IsOwner i c
        → open_now start i ≡ false
        → Leaves (i ∷ is) s
        → Leaves is (c.close s)
    close-Leaves i is c s o new l k = elim (Bool-cases (nat_eq k i)) [
      | inl e ↦
          let old : open_now start k ≡ false =
            subst (λ n. open_now start n ≡ false) (sym ((nat_eq_iff k i).0 e)) new in
          inr (o.closes s k ∙ ap (λ b. not b && open_now s k) e ∙ sym old)
      | inr e ↦ elim (l k) [
        | inl m ↦ inl (rw e at m)
        | inr m ↦ inr (o.closes s k ∙ ap (λ b. not b && open_now s k) e ∙ m)
      ]
    ]

    pub close_all-Leaves :
        (cs : List (String × SftpClient N)) (is : List ℕ) (s : N)
        → Numbered cs is
        → Leaves is s
        → Leaves [] (close_all cs s)
    unfolding close_all
    close_all-Leaves [] [] s n l = l
    close_all-Leaves [] (i ∷ is) s n l = absurd n
    close_all-Leaves (kc ∷ cs) [] s n l = absurd n
    close_all-Leaves ((k, c) ∷ cs) (i ∷ is) s (o, new, n) l =
        close_all-Leaves cs is (c.close s) n (close-Leaves i is c s o new l)
