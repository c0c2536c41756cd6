-- ===== src/Task/Plugin/Rounds.antt =====
-- Histories whose entries are numbered: plugin/simple_form.go and plugin/payment.go.
use nsw.Prelude.{ℕ, ◌+◌, List, [], ◌∷◌, ◌++◌, length, ok, ◌≡◌, arith}
use nsw.Json.{Coding}

-- The numbers from `n` on.
abbrev pub NumberedFrom : ℕ → List ℕ → Type 0
NumberedFrom n [] = Unit
NumberedFrom n (round ∷ rounds) = (round ≡ n) × NumberedFrom (n + 1) rounds

module _ {A : Type 0} (round : A → ℕ) where
  abbrev pub rounds : List A → List ℕ
  rounds [] = []
  rounds (entry ∷ entries) = round entry ∷ rounds entries

  -- The numbers of the rounds survive `json.Marshal` and `json.Unmarshal`.
  abbrev pub KeepsRounds : Coding (List A) → Type 0
  KeepsRounds coding =
      (history stored : List A)
      → coding.decode (coding.encode history) ≡ ok stored
      → rounds stored ≡ rounds history

  -- A history with one more entry, which has the next number, goes on to be numbered.
  pub NumberedFrom-append :
      (n : ℕ) (entries : List A) (entry : A)
      → NumberedFrom n (rounds entries)
      → round entry ≡ n + length entries
      → NumberedFrom n (rounds (entries ++ entry ∷ []))
  NumberedFrom-append n [] entry h e = (omega arith, tt)
  NumberedFrom-append n (first ∷ entries) entry (h, hs) e =
      (h, NumberedFrom-append (n + 1) entries entry hs (omega arith))
