-- ===== src/Server/Outcome.antt =====
-- The results of Go calls: `(value, error)` as a sum, and calls that change a state and may fail.
-- What was changed before a failure stays changed, so the state comes back beside the error.
use tiny_file_watcher.Prelude.{Bool, true, false, ◌≡◌, refl, sym, ap, ◌∙◌, ◌⊎◌, inl, inr}

pub data Result {ℓ} (E A : Type ℓ) : Type ℓ where
  ok : A → Result E A
  err : E → Result E A

-- why a call of the database fails
pub data DbError : Type 0 where
  -- a query of one row finds none; an UPDATE or DELETE that must touch a row touches none
  no_rows no_effect : DbError
  -- constraints of the schema
  unique_violation foreign_key_violation : DbError
  -- all else that the driver may report
  driver_failure : DbError

-- the gRPC status codes that the services use (google.golang.org/grpc/codes)
pub data Code : Type 0 where
  invalid_argument not_found already_exists unauthenticated internal : Code

abbrev pub Exec {ℓ} : Type ℓ → Type ℓ → Type ℓ → Type ℓ
Exec E S A = S → Result E A × S

module _ {ℓ} {E S A : Type ℓ} where
  abbrev pub pure : A → Exec E S A
  pure a s = (ok a, s)

  abbrev pub fail : E → Exec E S A
  fail e s = (err e, s)

  abbrev pub gets : (S → A) → Exec E S A
  gets f s = (ok (f s), s)

  abbrev pub lift : Result E A → Exec E S A
  lift r s = (r, s)

module _ {ℓ} {E S A B : Type ℓ} where
  abbrev pub continue : Result E A × S → (A → Exec E S B) → Result E B × S
  continue (ok a, s) f = f a s
  continue (err e, s) f = (err e, s)

  infixl 10 ◌>>=◌ ◌>>◌
  abbrev pub ◌>>=◌ : Exec E S A → (A → Exec E S B) → Exec E S B
  ◌>>=◌ m f s = continue (m s) f

  abbrev pub ◌>>◌ : Exec E S A → Exec E S B → Exec E S B
  m >> n = m >>= λ _. n

-- `if cond { return nil, err }`
abbrev pub refuse {ℓ} : {E S : Type ℓ} → Bool → E → Exec E S (Unit {ℓ})
refuse true e s = (err e, s)
refuse false e s = (ok tt, s)

abbrev pub recode {ℓ} : {E F A : Type ℓ} → F → Result E A → Result F A
recode f (ok a) = ok a
recode f (err e) = err f

-- `if err != nil { return nil, status.Errorf(code, …, err) }`
abbrev pub or_status {ℓ} : {E F S A : Type ℓ} → F → Exec E S A → Exec F S A
or_status f m s = let (r, s') = m s in (recode f r, s')

abbrev pub map_err {ℓ} : {E F A : Type ℓ} → (E → F) → Result E A → Result F A
map_err f (ok a) = ok a
map_err f (err e) = err (f e)

pub outcome-cases :
    {E S A : Type 0} (x : Result E A × S)
    → ((a : A) × (s : S) × (x ≡ (ok a, s))) ⊎ ((e : E) × (s : S) × (x ≡ (err e, s)))
outcome-cases (ok a, s) = inl (a, s, refl)
outcome-cases (err e, s) = inr (e, s, refl)

pub result-cases :
    {E A : Type 0} (r : Result E A) → ((a : A) × (r ≡ ok a)) ⊎ ((e : E) × (r ≡ err e))
result-cases (ok a) = inl (a, refl)
result-cases (err e) = inr (e, refl)

ok≢err : {E S A : Type 0} (a : A) (e : E) (s t : S) → ¬ (Path (Result E A × S) (ok a, s) (err e, t))
ok≢err a e s t h = cc

-- a call that succeeds after another: the first has succeeded
pub bind-ok :
    {E S A B : Type 0} (m : Exec E S A) (f : A → Exec E S B) (s s' : S) (b : B)
    → (m >>= f) s ≡ (ok b, s')
    → (a : A) × (t : S) × (m s ≡ (ok a, t)) × (f a t ≡ (ok b, s'))
bind-ok m f s s' b h = elim (outcome-cases (m s)) [
  | inl (a, t, e) ↦ (a, t, e, rw e at h)
  | inr (x, t, e) ↦ absurd (ok≢err _ _ _ _ (sym (rw e at h)))
]

abbrev relabel : {E F S A : Type 0} → Result E A → Result F A × S → Result E A × S
relabel other (ok a, s) = (ok a, s)
relabel other (err e, s) = (other, s)

pub or_status-ok :
    {E F S A : Type 0} (f : F) (m : Exec E S A) (s s' : S) (a : A)
    → or_status f m s ≡ (ok a, s')
    → m s ≡ (ok a, s')
or_status-ok f m s s' a h = elim (outcome-cases (m s)) [
  | inl (b, t, e) ↦ e ∙ ap (relabel (m s).0) (rw e at h)
  | inr (x, t, e) ↦ absurd (ok≢err _ _ _ _ (sym (rw e at h)))
]
