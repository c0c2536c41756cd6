-- ===== src/Task/Tests/Codings.antt =====
-- A coding of histories that keeps the numbers of their rounds, as strokes between commas.
use Prim.Native.Char.{code}
use nsw.Prelude.{
  ℕ, zero, suc, ◌+◌, String, List, [], ◌∷◌, ◌==ℕ◌, if◌then◌else◌, ok, ok-inj, ◌≡◌, refl, ap, ◌∙◌,
  arith,
}
use mathlib.Core.Path.{subst}
use nsw.Json.{Coding}
use nsw.Task.Plugin.Rounds.{rounds, KeepsRounds}

abbrev strokes : ℕ → String → String
strokes zero s = s
strokes (suc n) s = String.◌∷◌ "1" (strokes n s)

module _ {A : Type 0} (round : A → ℕ) (entry : ℕ → A) where
  unfoldable pub encode_rounds : List A → String
  encode_rounds [] = ""
  encode_rounds (a ∷ entries) = strokes (round a) (String.◌∷◌ "," (encode_rounds entries))

  unfoldable pub decode_rounds : ℕ → String → List A
  decode_rounds n String.[] = []
  decode_rounds n (String.◌∷◌ c s) =
      let next = decode_rounds 0 s in
      let longer = decode_rounds (n + 1) s in if code c ==ℕ b',' then entry n ∷ next else longer

  abbrev pub rounds_coding : Coding (List A)
  rounds_coding = record { encode = encode_rounds; decode = λ json. ok (decode_rounds 0 json) }

  decode_rounds-strokes :
      (n k : ℕ) (s : String)
      → decode_rounds n (strokes k (String.◌∷◌ "," s)) ≡ entry (n + k) ∷ decode_rounds 0 s
  unfolding decode_rounds
  decode_rounds-strokes n zero s = ap (λ m. entry m ∷ decode_rounds 0 s) (omega arith)
  decode_rounds-strokes n (suc k) s =
      decode_rounds-strokes (n + 1) k s ∙ ap (λ m. entry m ∷ decode_rounds 0 s) (omega arith)

  decode_rounds-encode :
      ((n : ℕ) → round (entry n) ≡ n)
      → (entries : List A)
      → rounds round (decode_rounds 0 (encode_rounds entries)) ≡ rounds round entries
  unfolding decode_rounds encode_rounds
  decode_rounds-encode h [] = refl
  decode_rounds-encode h (a ∷ entries) =
      rw (decode_rounds-strokes 0 (round a) (encode_rounds entries)) (
        ap (λ r. r ∷ rounds round (decode_rounds 0 (encode_rounds entries)))
          (h (0 + round a) ∙ omega arith)
        ∙ ap (λ rs. round a ∷ rs) (decode_rounds-encode h entries))

  pub rounds_coding-KeepsRounds : ((n : ℕ) → round (entry n) ≡ n) → KeepsRounds round rounds_coding
  rounds_coding-KeepsRounds h history stored e =
      subst (λ it. rounds round it ≡ rounds round history) (ok-inj e)
        (decode_rounds-encode h history)
