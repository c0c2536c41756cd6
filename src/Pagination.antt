-- ===== src/Pagination.antt =====
-- backend/utils/pagination.go: the offset and the limit of a page.
mod Examples
use nsw.Prelude.{
  ℕ, suc, ◌+◌, ◌≤◌, ◌<◌, String, Option, none, some, leb, ltb, ◌==◌, if◌then◌else◌, Result, ok, err,
  panic, ◌≡◌, ◌≢◌, ◌↔◌, ◌⊎◌, refl, sym, arith, ne_of_test, inl, inr, Bool-cases, true, false,
  ok-inj, ap, ◌∙◌, eq_iff, Bool,
}

-- an `int`: a number that is not negative, or one below zero
pub data ℤ : Type 0 where
  pos : ℕ → ℤ
  negsuc : ℕ → ℤ

abbrev pub page_size_default : ℕ
page_size_default = 50

abbrev pub page_size_max : ℕ
page_size_max = 100

abbrev capped : ℕ → ℕ
capped n = if ltb n page_size_max then n else page_size_max

-- `finalOffset`
unfoldable pub final_offset : Option ℤ → ℕ
final_offset (some (pos n)) = n
final_offset _ = 0

-- `finalLimit`
unfoldable pub final_limit : Option ℤ → ℕ
final_limit (some (pos n)) = if ltb 0 n then capped n else page_size_default
final_limit _ = page_size_default

-- `GetPaginationParams`
unfoldable pub get_pagination_params : Option ℤ → Option ℤ → ℕ × ℕ
unfolding final_offset final_limit
get_pagination_params offset limit = (final_offset offset, final_limit limit)

-- the checks of the offset
unfoldable pub check_offset : Option ℤ → Result (Option ℤ)
check_offset none = err "invalid 'offset' query parameter, must be an integer"
check_offset (some (negsuc n)) =
    err "invalid 'offset' query parameter, must be a non-negative integer"
check_offset (some (pos n)) = ok (some (pos n))

-- the checks of the limit
unfoldable pub check_limit : Option ℤ → Result (Option ℤ)
check_limit none = err "invalid 'limit' query parameter, must be an integer"
check_limit (some (negsuc n)) = err "invalid 'limit' query parameter, must be at least 1"
check_limit (some (pos n)) =
    if ltb n 1
    then err "invalid 'limit' query parameter, must be at least 1"
    else if ltb page_size_max n
    then err "invalid 'limit' query parameter, too large"
    else ok (some (pos n))

-- The `strconv.Atoi` of a query parameter is a parameter.
module _ (atoi : String → Option ℤ) where
  abbrev unless_empty : (Option ℤ → Result (Option ℤ)) → String → Result (Option ℤ)
  unless_empty check s = if s == "" then ok none else check (atoi s)

  abbrev both : Result (Option ℤ) → Result (Option ℤ) → Result (Option ℤ × Option ℤ)
  both (ok offset) (ok limit) = ok (offset, limit)
  both (ok offset) (err e) = err e
  both (ok offset) panic = panic
  both (err e) limit = err e
  both panic limit = panic

  -- `ParsePaginationParams`, of the texts of the two query parameters
  unfoldable pub parse_pagination_params : String → String → Result (Option ℤ × Option ℤ)
  unfolding check_offset check_limit
  parse_pagination_params offset limit =
      both (unless_empty check_offset offset) (unless_empty check_limit limit)

-- Whatever is asked for, a page has at least one row and at most a hundred.
pub get_pagination_params-bounds :
    (offset limit : Option ℤ)
    → (0 < (get_pagination_params offset limit).1)
      × ((get_pagination_params offset limit).1 ≤ page_size_max)
unfolding get_pagination_params final_limit
get_pagination_params-bounds offset none = (omega arith, omega arith)
get_pagination_params-bounds offset (some (negsuc n)) = (omega arith, omega arith)
get_pagination_params-bounds offset (some (pos n)) = (ground arith, ground arith)

pos-inj : {a b : ℕ} → Path (Option ℤ) (some (pos a)) (some (pos b)) → a ≡ b
pos-inj h = cc

abbrev AnyNumber : ℕ → Type 0
AnyNumber n = Unit

-- The checks of the offset accept the numbers that are not negative.
check_offset_iff :
    (found : Option ℤ) (m : ℕ)
    → ((asked : Option ℤ) × (check_offset found ≡ ok asked) × (final_offset asked ≡ m))
      ↔ ((found ≡ some (pos m)) × AnyNumber m)
unfolding check_offset final_offset
check_offset_iff none m = ((λ (asked, h, e). absurd cc), λ (h, _). absurd cc)
check_offset_iff (some (negsuc n)) m = ((λ (asked, h, e). absurd cc), λ (h, _). absurd cc)
check_offset_iff (some (pos n)) m = (
  (λ (asked, h, e).
      let same : final_offset (some (pos n)) ≡ m = ap final_offset (ok-inj h) ∙ e in
      (ap (λ k. some (pos k)) same, tt)),
  (λ (h, _). (some (pos n), refl, pos-inj h)),
)

-- The checks of the limit accept the numbers from one to the greatest size of a page.
check_limit_iff :
    (found : Option ℤ) (n : ℕ)
    → ((asked : Option ℤ) × (check_limit found ≡ ok asked) × (final_limit asked ≡ n))
      ↔ ((found ≡ some (pos n)) × ((0 < n) × (n ≤ page_size_max)))
unfolding check_limit final_limit
check_limit_iff none n = ((λ (asked, h, e). absurd cc), λ (h, _). absurd cc)
check_limit_iff (some (negsuc k)) n = ((λ (asked, h, e). absurd cc), λ (h, _). absurd cc)
check_limit_iff (some (pos k)) n = (
  (λ (asked, h, e). by_tests asked h e (Bool-cases (ltb k 1)) (Bool-cases (ltb page_size_max k))),
  (λ (h, (positive, bounded)).
      let same : k ≡ n = pos-inj h in (some (pos k), ground arith, ground arith)),
)
  where
    by_tests :
        (asked : Option ℤ)
        → (if ltb k 1
            then err "invalid 'limit' query parameter, must be at least 1"
            else if ltb page_size_max k
            then err "invalid 'limit' query parameter, too large"
            else ok (some (pos k)))
          ≡ ok asked
        → final_limit asked ≡ n
        → (ltb k 1 ≡ true) ⊎ (ltb k 1 ≡ false)
        → (ltb page_size_max k ≡ true) ⊎ (ltb page_size_max k ≡ false)
        → (Path (Option ℤ) (some (pos k)) (some (pos n))) × ((0 < n) × (n ≤ page_size_max))
    by_tests asked h e (inl small) _ =
        let no : Path (Result (Option ℤ)) (err _) (ok asked) = rw small at h in absurd cc
    by_tests asked h e (inr given) (inl large) =
        let no : Path (Result (Option ℤ)) (err _) (ok asked) = rw (given, large) at h in absurd cc
    by_tests asked h e (inr given) (inr fits) =
        let asked_is : some (pos k) ≡ asked = ok-inj (rw (given, fits) at h) in
        let limit : final_limit (some (pos k)) ≡ n = ap final_limit asked_is ∙ e in
        let same : k ≡ n = ground arith in
        (ap (λ m. some (pos m)) same, (ground arith, ground arith))

-- A number is taken of a query parameter: the one that the text names, or the default where there
-- is no text.
abbrev pub IsTaken : (String → Option ℤ) → ℕ → String → ℕ → Type 0
IsTaken atoi default s n = ((s ≡ "") × (n ≡ default)) ⊎ ((s ≢ "") × (atoi s ≡ some (pos n)))

module _ (atoi : String → Option ℤ) where
  -- Such a number is read of a text, by the checks of one of the two query parameters.
  read_iff :
      (check : Option ℤ → Result (Option ℤ)) (final : Option ℤ → ℕ) (Fits : ℕ → Type 0)
      (default : ℕ)
      → final none ≡ default
      → Fits default
      → ((found : Option ℤ) (n : ℕ)
          → ((asked : Option ℤ) × (check found ≡ ok asked) × (final asked ≡ n))
            ↔ ((found ≡ some (pos n)) × Fits n))
      → (s : String) (n : ℕ)
      → ((asked : Option ℤ) × (unless_empty atoi check s ≡ ok asked) × (final asked ≡ n))
        ↔ (IsTaken atoi default s n × Fits n)
  read_iff check final Fits default at_none fits iff s n = elim (Bool-cases (s == "")) [
    | inl e ↦
        let empty : s ≡ "" = (eq_iff s "").0 e in
        (
          (λ (asked, h, f).
              let is : none ≡ asked = ok-inj (rw e at h) in
              let n_is : n ≡ default = sym f ∙ ap final (sym is) ∙ at_none in
              (inl (empty, n_is), rw n_is fits)),
          (λ (taken, ok_n). elim taken [
            | inl (_, n_is) ↦ (none, rw e refl, at_none ∙ sym n_is)
            | inr (given, _) ↦ absurd (given empty)
          ]),
        )
    | inr e ↦
        let given : s ≢ "" = λ h. ne_of_test s "" e h in
        (
          (λ (asked, h, f).
              let (named, ok_n) = (iff (atoi s) n).0 (asked, (rw e at h), f) in
              (inr (given, named), ok_n)),
          (λ (taken, ok_n). elim taken [
            | inl (empty, _) ↦ absurd (given empty)
            | inr (_, named) ↦
                let (asked, h, f) = (iff (atoi s) n).1 (named, ok_n) in (asked, rw e h, f)
          ]),
        )
  ]

  both-eq-ok :
      (o l : Result (Option ℤ)) (asked : Option ℤ × Option ℤ)
      → both atoi o l ≡ ok asked
      → (o ≡ ok asked.0) × (l ≡ ok asked.1)
  both-eq-ok (ok a) (ok b) asked h = let e = ok-inj h in (ap (λ p. ok p.0) e, ap (λ p. ok p.1) e)
  both-eq-ok (ok a) (err e) asked h = absurd cc
  both-eq-ok (ok a) panic asked h = absurd cc
  both-eq-ok (err e) l asked h = absurd cc
  both-eq-ok panic l asked h = absurd cc

  -- `ParsePaginationParams` accepts two texts and `GetPaginationParams` then gives an offset and a
  -- limit exactly where the texts name these two numbers, or are empty and the numbers are 0 and
  -- 50, and the limit is one of 1 to 100: no number that a text names is replaced by another, and a
  -- limit out of these bounds is refused.
  pub get_pagination_params-IsTaken :
      (offset_text limit_text : String) (offset limit : ℕ)
      → ((asked : Option ℤ × Option ℤ) × (parse_pagination_params atoi offset_text limit_text
            ≡ ok asked)
          × (get_pagination_params asked.0 asked.1 ≡ (offset, limit)))
        ↔ (IsTaken atoi 0 offset_text offset
            × IsTaken atoi page_size_default limit_text limit
            × (0 < limit)
            × (limit ≤ page_size_max))
  unfolding get_pagination_params parse_pagination_params final_offset final_limit
  get_pagination_params-IsTaken offset_text limit_text offset limit =
      let offset_iff =
        read_iff check_offset final_offset AnyNumber 0 refl tt check_offset_iff offset_text
          offset in
      let limit_iff =
        read_iff check_limit final_limit (λ n. (0 < n) × (n ≤ page_size_max)) page_size_default refl
          (omega arith, omega arith) check_limit_iff limit_text limit in
      (
        (λ (asked, h, e).
            let (o, l) = both-eq-ok _ _ asked h in
            let (taken, _) = offset_iff.0 (asked.0, o, ap (λ (p : ℕ × ℕ). p.0) e) in
            let (taken', fits) = limit_iff.0 (asked.1, l, ap (λ (p : ℕ × ℕ). p.1) e) in
            (taken, taken', fits.0, fits.1)),
        (λ (taken, taken', positive, bounded).
            let (o, accepted, e) = offset_iff.1 (taken, tt) in
            let (l, accepted', e') = limit_iff.1 (taken', (positive, bounded)) in
            ((o, l), rw accepted (rw accepted' refl), rw e (rw e' refl))),
      )
