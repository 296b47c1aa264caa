-- ===== src/Server/Database/Integrity/Renaming.antt =====
-- server/database/file_watcher_db.go: the UPDATE of UpdateWatcher on the rows of file_watchers.
use mathlib.Core.Option.{get_or}
use tiny_file_watcher.Prelude.{
  ℕ, ◌≡◌, refl, sym, ◌∙◌, String, true, false, Option, some, List, [], ◌∷◌, map, any, first, All,
  any-map, Distinct, string_comparable, nat_comparable, map_update, arith, ◌==◌, eq_iff, nat_eq,
  nat_eq_iff, Bool-cases, ◌⊎◌, inl, inr,
}
use tiny_file_watcher.Server.Database.{Machine, FileWatcher, has_machine, has_watcher}
use tiny_file_watcher.Server.Database.Watchers.{name_taken, assign_watcher}

-- every row with the id has the name
abbrev pub Named : ℕ → String → List FileWatcher → Type 0
Named id k ws = All (λ (v : FileWatcher). nat_eq v.id id ≡ true → v.name ≡ k) ws

-- ids are distinct, so the row that a query by id finds is the only one
pub Named-of_absent :
    (id : ℕ) (k : String) (ws : List FileWatcher)
    → any (λ (v : FileWatcher). nat_eq v.id id) ws ≡ false
    → Named id k ws
Named-of_absent id k [] h = tt
Named-of_absent id k (v ∷ ws) h = (ground arith, Named-of_absent id k ws (ground arith))

pub Named-first :
    (id : ℕ) (w : FileWatcher) (ws : List FileWatcher)
    → Distinct (map (λ (v : FileWatcher). v.id) ws)
    → first (λ v. nat_eq v.id id) ws ≡ some w
    → Named id w.name ws
Named-first id w [] d e = tt
Named-first id w (v ∷ ws) d e = elim (Bool-cases (nat_eq v.id id)) [
  | inl h ↦
      let same : v.id ≡ id = (nat_eq_iff v.id id).0 h in
      let gone : any (λ (x : FileWatcher). nat_eq x.id id) ws ≡ false =
        rw (← same) (sym (any-map _ (λ (x : FileWatcher). x.id) ws) ∙ d.0) in
      (ground arith, Named-of_absent id w.name ws gone)
  | inr h ↦ (ground arith, Named-first id w ws d.1 (rw h at e))
]

module _ (id : ℕ) (name path : Option String) (now : ℕ) (k : String) where
  -- a name that is not the old one, or an update that keeps the name
  pub has_watcher-write :
      (j : String) (ws : List FileWatcher)
      → Named id k ws
      → (j == k) ≡ false ⊎ (get_or name k ≡ k)
      → has_watcher j ws ≡ true
      → has_watcher j (map (assign_watcher id name path now) ws) ≡ true
  unfolding assign_watcher
  has_watcher-write j [] n c h = h
  has_watcher-write j (v ∷ ws) n c h =
      ground (arith, n.0, eq_iff v.name j, eq_iff j k, has_watcher-write j ws n.1 c)

  pub ids-write :
      (ws : List FileWatcher)
      → map (λ (v : FileWatcher). v.id) (map (assign_watcher id name path now) ws)
        ≡ map (λ (v : FileWatcher). v.id) ws
  unfolding assign_watcher
  ids-write ws = map_update _ _ ws (λ v. ground arith)

  abbrev pub names_of : List FileWatcher → List String
  names_of = map (λ (v : FileWatcher). v.name)

  -- no row has the id: the names stay
  pub names_absent :
      (ws : List FileWatcher)
      → any (λ (v : FileWatcher). nat_eq v.id id) ws ≡ false
      → names_of (map (assign_watcher id name path now) ws) ≡ names_of ws
  unfolding assign_watcher
  names_absent [] h = refl
  names_absent (v ∷ ws) h = ground (arith, names_absent ws)

  pub free_name :
      (ws : List FileWatcher)
      → any (λ (v : FileWatcher). nat_eq v.id id) ws ≡ false
      → name_taken id (get_or name k) ws ≡ false
      → any (λ key. key == get_or name k) (names_of ws) ≡ false
  free_name [] a h = refl
  free_name (v ∷ ws) a h = ground (arith, free_name ws)

  pub other_name :
      (x : String) (ws : List FileWatcher)
      → Named id k ws
      → (get_or name k == x) ≡ false
      → any (λ key. key == x) (names_of ws) ≡ false
      → any (λ key. key == x) (names_of (map (assign_watcher id name path now) ws)) ≡ false
  unfolding assign_watcher
  other_name x [] n e h = refl
  other_name x (v ∷ ws) n e h = ground (arith, n.0, other_name x ws n.1 e)

  pub written_name :
      (v : FileWatcher)
      → nat_eq v.id id ≡ true
      → v.name ≡ k
      → (assign_watcher id name path now v).name ≡ get_or name k
  unfolding assign_watcher
  written_name v e h = rw (e, h)

  pub kept_name :
      (v : FileWatcher) → nat_eq v.id id ≡ false → (assign_watcher id name path now v).name ≡ v.name
  unfolding assign_watcher
  kept_name v e = rw e

  pub names-write :
      (ws : List FileWatcher)
      → Distinct (names_of ws)
      → Distinct (map (λ (v : FileWatcher). v.id) ws)
      → Named id k ws
      → name_taken id (get_or name k) ws ≡ false
      → Distinct (names_of (map (assign_watcher id name path now) ws))
  names-write [] d i n h = tt
  names-write (v ∷ ws) d i n h = elim (Bool-cases (nat_eq v.id id)) [
    | inl e ↦
        let same : v.id ≡ id = (nat_eq_iff v.id id).0 e in
        let gone : any (λ (x : FileWatcher). nat_eq x.id id) ws ≡ false =
          rw (← same) (sym (any-map _ (λ (x : FileWatcher). x.id) ws) ∙ i.0) in
        rw (written_name v e (n.0 e), names_absent ws gone) (free_name ws gone (ground arith), d.1)
    | inr e ↦ rw (kept_name v e) (
      other_name v.name ws n.1
          (ground (arith, eq_iff v.name (get_or name k), eq_iff (get_or name k) v.name)) d.0,
      names-write ws d.1 i.1 n.1 (ground arith),
    )
  ]

  pub machines-write :
      (ms : List Machine) (ws : List FileWatcher)
      → All (λ (w : FileWatcher). has_machine w.machine_name ms ≡ true) ws
      → All
          (λ (w : FileWatcher). has_machine w.machine_name ms ≡ true)
          (map (assign_watcher id name path now) ws)
  unfolding assign_watcher
  machines-write ms [] h = tt
  machines-write ms (v ∷ ws) h = (ground (arith, h.0), machines-write ms ws h.1)
