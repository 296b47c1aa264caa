-- ===== src/Client/Terminal/Shorten.antt =====
-- client/cmd/flush.go: how long a shortened path is, and what is left of it.
use tiny_file_watcher.Prelude.{
  ℕ, zero, suc, ◌+◌, ◌-◌, ◌≤◌, ◌<◌, ◌≡◌, refl, ap, none, some, List, [], ◌∷◌, ◌++◌, ◌⊎◌, inl, inr,
  leb, length, Bool-cases, arith,
}
use tiny_file_watcher.Client.Terminal.{drop, dots, shorten_path}

-- the last bytes of a path
drop_split :
    (n : ℕ) (bs : List ℕ)
    → n ≤ length bs
    → (front : List ℕ) × (bs ≡ front ++ drop n bs) × (length (drop n bs) + n ≡ length bs)
drop_split zero bs h = ([], refl, omega arith)
drop_split (suc n) [] h = absurd (omega arith)
drop_split (suc n) (b ∷ bs) h =
    let (front, e, l) = drop_split n bs (omega arith) in (b ∷ front, ap (◌∷◌ b) e, omega arith)

-- A path is shortened as follows, by the number of its bytes. Up to the maximum it is kept. A longer
-- one, for a maximum of at least 3, becomes exactly as long as the maximum: three dots and the last
-- bytes of the path. For a smaller maximum, and only then, the slice is out of range.
pub shorten_path_lem :
    (path : List ℕ) (max_len : ℕ)
    → ((length path ≤ max_len) × (shorten_path path max_len ≡ some path))
      ⊎ ((max_len < length path)
          × (3 ≤ max_len)
          × (front : List ℕ) × (rest : List ℕ) × (path ≡ front ++ rest)
          × (shorten_path path max_len ≡ some (dots ++ rest))
          × (length (dots ++ rest) ≡ max_len))
      ⊎ ((max_len < length path) × (max_len < 3) × (shorten_path path max_len ≡ none))
unfolding shorten_path
shorten_path_lem path max_len = elim (Bool-cases (leb (length path) max_len)) [
  | inl e ↦ inl (ground arith, rw e refl)
  | inr e ↦ elim (Bool-cases (leb (length path - max_len + 3) (length path))) [
    | inl f ↦
        let (front, s, l) = drop_split (length path - max_len + 3) path (ground arith) in
        inr (
          inl (
            ground arith,
            ground arith,
            front,
            drop (length path - max_len + 3) path,
            s,
            rw (e, f) refl,
            ground arith,
          ))
    | inr f ↦ inr (inr (ground arith, ground arith, rw (e, f) refl))
  ]
]
