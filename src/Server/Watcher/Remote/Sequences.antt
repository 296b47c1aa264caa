-- ===== src/Server/Watcher/Remote/Sequences.antt =====
-- server/watcher/sync.go: the SSH connections that syncs leave open, one sync after the other.
use mathlib.Core.Path.{subst}
use tiny_file_watcher.Prelude.{
  ℕ, ◌+◌, ◌≡◌, refl, sym, ap, ◌∙◌, String, Bool, true, false, ◌||◌, List, [], ◌∷◌, inl, inr, any,
  nat_eq, nat_eq_iff, length, Bool-cases, arith,
}
use tiny_file_watcher.Server.Outcome.{Result, ok, err, result-cases}
use tiny_file_watcher.Server.Database.{Machine}
use tiny_file_watcher.Server.Flush.Dialer.Balance.{true≢false, neither}
use tiny_file_watcher.Server.Flush.Dialer.Connections.{IsSsh}
use tiny_file_watcher.Server.Ssh.{Library}
use tiny_file_watcher.Server.Watcher.Sync.{SyncJob}
use tiny_file_watcher.Server.Watcher.Remote.{View, open_remote_fs, run_over_ssh}
use tiny_file_watcher.Server.Watcher.Remote.Leaks.{run_over_ssh-Connected}

abbrev one_if_ok : {A : Type 0} → Result (Unit {0}) A → ℕ
one_if_ok (ok a) = 1
one_if_ok (err e) = 0

swap : {o p : Bool} (a b c : Bool) → o ≡ (b || p) → p ≡ (a || c) → o ≡ ((a || b) || c)
swap true true c e f = e
swap true false c e f = e ∙ f
swap false true c e f = e
swap false false c e f = e ∙ f

module _ {N K S : Type 0} (lib : Library N K) (view : View N)
    (compile : List String → String → Bool) where
  -- syncs that run one after the other, of any watchers and machines
  unfoldable pub after_syncs : List (SyncJob S × (Machine × Bool)) → S × N → S × N
  after_syncs [] sn = sn
  after_syncs ((j, (machine, flush)) ∷ js) sn =
      after_syncs js (run_over_ssh lib view compile j machine flush sn).1

  -- how many of them have a connection
  unfoldable pub connected : List (SyncJob S × (Machine × Bool)) → S × N → ℕ
  connected [] sn = 0
  connected ((j, (machine, flush)) ∷ js) sn =
      one_if_ok (open_remote_fs lib view machine sn.1).0
      + connected js (run_over_ssh lib view compile j machine flush sn).1

module _ {N : Type 0} (open_now : N → ℕ → Bool) where
  -- different connections, none of which is open
  abbrev pub AreNew : N → List ℕ → Type 0
  AreNew n [] = Unit
  AreNew n (i ∷ is) = (open_now n i ≡ false) × (any (nat_eq i) is ≡ false) × AreNew n is

  AreNew-earlier :
      (n m : N) (is : List ℕ)
      → ((k : ℕ) → open_now m k ≡ false → open_now n k ≡ false)
      → AreNew m is
      → AreNew n is
  AreNew-earlier n m [] f a = tt
  AreNew-earlier n m (i ∷ is) f (a, b, c) = (f i a, b, AreNew-earlier n m is f c)

  open-not_new :
      (n : N) (k : ℕ) (is : List ℕ) → open_now n k ≡ true → AreNew n is → any (nat_eq k) is ≡ false
  open-not_new n k [] o a = refl
  open-not_new n k (i ∷ is) o (a, b, c) = elim (Bool-cases (nat_eq k i)) [
    | inl e ↦
        absurd
          (true≢false (sym o ∙ subst (λ x. open_now n x ≡ false) (sym ((nat_eq_iff k i).0 e)) a))
    | inr e ↦ rw e (open-not_new n k is o c)
  ]

  -- what is open after the syncs: as many new connections as were made, and what was open before
  abbrev pub Leaks : ℕ → N → N → Type 0
  Leaks made n m =
      (is : List ℕ) × (length is ≡ made)
      × AreNew n is
      × ((k : ℕ) → open_now m k ≡ (any (nat_eq k) is || open_now n k))

  leak-one :
      (i made : ℕ) (n t m : N)
      → open_now n i ≡ false
      → ((k : ℕ) → open_now t k ≡ (nat_eq k i || open_now n k))
      → Leaks made t m
      → Leaks (1 + made) n m
  leak-one i made n t m fresh now (is, l, a, o) =
      let here : open_now t i ≡ true =
        now i ∙ ap (λ b. b || open_now n i) ((nat_eq_iff i i).1 refl) in
      (
        i ∷ is,
        omega arith,
        (
          fresh,
          open-not_new t i is here a,
          AreNew-earlier n t is (λ k z. neither (nat_eq k i) (now k) z) a,
        ),
        λ k. swap (nat_eq k i) (any (nat_eq k) is) (open_now n k) (o k) (now k),
      )

  leak-none :
      (made : ℕ) (n t m : N)
      → ((k : ℕ) → open_now t k ≡ open_now n k)
      → Leaks made t m
      → Leaks (0 + made) n m
  leak-none made n t m same (is, l, a, o) = (
    is,
    omega arith,
    AreNew-earlier n t is (λ k z. sym (same k) ∙ z) a,
    λ k. o k ∙ ap (λ b. any (nat_eq k) is || b) (same k),
  )

  module _ {K S : Type 0} (lib : Library N K) (view : View N)
      (compile : List String → String → Bool) where
    -- Over SSH whose dials open one new connection or none, whose Close closes the connection that it is
    -- called on, and over SFTP that opens and closes none: after any syncs, one after the other and
    -- whatever their results are, exactly those SSH connections are open that were open before, and as
    -- many different new ones as there were syncs whose connection was made.
    pub after_syncs-Leaks :
        IsSsh open_now lib
        → (js : List (SyncJob S × (Machine × Bool))) (s : S) (n : N)
        → Leaks (connected lib view compile js (s, n)) n (after_syncs lib view compile js (s, n)).1
    unfolding after_syncs connected
    after_syncs-Leaks ssh [] s n = ([], refl, tt, λ k. refl)
    after_syncs-Leaks ssh ((j, (machine, flush)) ∷ js) s n =
        let once = run_over_ssh-Connected open_now lib view ssh compile j machine flush s n in
        let next = (run_over_ssh lib view compile j machine flush (s, n)).1 in
        let rest = after_syncs-Leaks ssh js next.0 next.1 in
        elim (result-cases (open_remote_fs lib view machine n).0) [
          | inl (rfs, e) ↦
              let (i, (fresh, now)) = (rw e at once) in
              rw e (leak-one i _ n next.1 _ fresh now rest)
          | inr (x, e) ↦ rw e (leak-none _ n next.1 _ (rw e at once) rest)
        ]
