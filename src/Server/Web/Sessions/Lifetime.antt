-- ===== src/Server/Web/Sessions/Lifetime.antt =====
-- server/web/auth.go: how long a session lasts.
use tiny_file_watcher.Prelude.{
  any-false-keep, ℕ, ◌+◌, ◌≤◌, ◌≡◌, refl, sym, ap, ◌∙◌, String, Bool, true, false, not, ◌&&◌, none,
  List, [], ◌∷◌, ◌==◌, ltb, keep, any, arith, Bool-cases, inl, inr, eq_iff, if◌then◌else◌,
  string_comparable,
}
use tiny_file_watcher.Server.Web.Sessions.{
  SessionStore, session_ttl, create, delete, lookup, unexpired, valid, reap, is_other, is_alive,
}

-- what happens to a store
pub data Event : Type 0 where
  created : String → ℕ → Event
  deleted : String → Event
  reaped : ℕ → Event

abbrev pub step : Event → SessionStore → SessionStore
step (created id now) s = create id now s
step (deleted id) s = delete id s
step (reaped now) s = reap now s

-- the store after the events, the last one first
abbrev pub after : List Event → SessionStore
after [] = []
after (e ∷ es) = step e (after es)

-- no event happens later than that
abbrev pub Until : ℕ → List Event → Type 0
Until t [] = Unit
Until t (created id now ∷ es) = (now ≤ t) × Until t es
Until t (deleted id ∷ es) = Until t es
Until t (reaped now ∷ es) = (now ≤ t) × Until t es

-- the events themselves: was the session created, less than 12 hours ago, and not deleted since?
abbrev pub lasts : String → ℕ → List Event → Bool
lasts id t [] = false
lasts id t (created k now ∷ es) = if k == id then ltb t (now + session_ttl) else lasts id t es
lasts id t (deleted k ∷ es) = not (k == id) && lasts id t es
lasts id t (reaped now ∷ es) = lasts id t es

lookup-delete :
    (k id : String) (s : SessionStore)
    → lookup id (delete k s) ≡ (if k == id then none else lookup id s)
unfolding lookup delete
lookup-delete k id [] = ground arith
lookup-delete k id ((x, e) ∷ s) =
    let forth : x == k ≡ true → x == id ≡ (k == id) = λ h. ap (λ z. z == id) ((eq_iff x k).0 h) in
    let back : x == id ≡ true → k == id ≡ true → x == k ≡ true =
      λ f g. (eq_iff x k).1 ((eq_iff x id).0 f ∙ sym ((eq_iff k id).0 g)) in
    ground (arith, forth, back, lookup-delete k id s)

abbrev is_id : String → String × ℕ → Bool
is_id id (k, e) = k == id

-- a map has one entry for a key
abbrev Single : SessionStore → Type 0
Single [] = Unit
Single ((k, e) ∷ s) = (any (is_id k) s ≡ false) × Single s

keep-Single : (p : String × ℕ → Bool) (s : SessionStore) → Single s → Single (keep p s)
keep-Single p [] u = tt
keep-Single p ((k, e) ∷ s) u = elim (Bool-cases (p (k, e))) [
  | inl h ↦ rw h (any-false-keep (is_id k) p s u.0, keep-Single p s u.1)
  | inr h ↦ rw h (keep-Single p s u.1)
]

delete-absent : (id : String) (s : SessionStore) → any (is_id id) (delete id s) ≡ false
unfolding delete
delete-absent id [] = refl
delete-absent id ((k, e) ∷ s) = ground (arith, delete-absent id s)

lookup_absent : (id : String) (s : SessionStore) → any (is_id id) s ≡ false → lookup id s ≡ none
unfolding lookup
lookup_absent id [] h = refl
lookup_absent id ((k, e) ∷ s) h = ground (arith, lookup_absent id s)

-- a tick drops only sessions that are no longer valid
valid-reap :
    (id : String) (t now : ℕ) (s : SessionStore)
    → now ≤ t
    → Single s
    → unexpired t (lookup id (reap now s)) ≡ unexpired t (lookup id s)
unfolding lookup reap
valid-reap id t now [] le u = refl
valid-reap id t now ((k, e) ∷ s) le u = elim (Bool-cases (k == id)) [
  | inl h ↦
      let gone : lookup id (keep (is_alive now) s) ≡ none =
        lookup_absent id (keep (is_alive now) s) (
          any-false-keep (is_id id) (is_alive now) s
            (ap (λ z. any (is_id z) s) (sym ((eq_iff k id).0 h)) ∙ u.0)) in
      elim (Bool-cases (ltb e now)) [
        | inl f ↦ rw (h, f) (rw gone (ground arith))
        | inr f ↦ rw (h, f) (rw h refl)
      ]
  | inr h ↦ elim (Bool-cases (ltb e now)) [
    | inl f ↦ rw (h, f) (valid-reap id t now s le u.1)
    | inr f ↦ rw (h, f) (rw h (valid-reap id t now s le u.1))
  ]
]

after-Single : (es : List Event) → Single (after es)
unfolding create delete reap
after-Single [] = tt
after-Single (created id now ∷ es) =
    (delete-absent id (after es), keep-Single (is_other id) (after es) (after-Single es))
after-Single (deleted id ∷ es) = keep-Single (is_other id) (after es) (after-Single es)
after-Single (reaped now ∷ es) = keep-Single (is_alive now) (after es) (after-Single es)

-- At any time after all the events so far, whatever sessions were created and deleted and however
-- often the expired ones were removed, a session is valid exactly if it was created less than 12
-- hours ago and was not deleted since: removing expired sessions is never seen.
pub valid_lem :
    (id : String) (t : ℕ) (es : List Event) → Until t es → valid id t (after es) ≡ lasts id t es
unfolding valid lookup create
valid_lem id t [] u = refl
valid_lem id t (created k now ∷ es) u =
    ground (arith, lookup-delete k id (after es), valid_lem id t es u.1)
valid_lem id t (deleted k ∷ es) u =
    ground (arith, lookup-delete k id (after es), valid_lem id t es u)
valid_lem id t (reaped now ∷ es) u =
    valid-reap id t now (after es) u.0 (after-Single es) ∙ valid_lem id t es u.1
