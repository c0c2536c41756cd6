-- ===== src/Workflow/Tests/Consignments.antt =====
-- The theorems about consignments on a table of one row, with a runtime that lists what it starts.
use nsw.Prelude.{
  String, Option, none, some, List, [], ◌∷◌, ◌==◌, eq_iff, eq_refl, if◌then◌else◌, Result, ok, err,
  ◌≡◌, ◌≢◌, refl, sym, arith, ok-inj, inl, inr, Bool-cases,
}
use nsw.Workflow.Consignment.{
  initialized, Consignment, ConsignmentTable, StartWorkflow, FindTemplate, initialize, complete,
  initialize_consignment, perform_all,
}
use nsw.Workflow.Consignment.Start.{IsConsignmentTable, Outcome, initialize_consignment-Outcome}
use nsw.Workflow.Consignment.Progress.{IsFurther, perform_all-IsFurther}

abbrev Row : Type 0
Row = Option Consignment

unfoldable first_row : Row → String → Result Consignment
first_row none id = err "record not found"
first_row (some row) id = if row.id == id then ok row else err "record not found"

unfoldable save_row : Row → Consignment → Result Row
save_row none c = ok (some c)
save_row (some row) c = if row.id == c.id then ok (some c) else err "the table is full"

unfoldable create_row : Row → Consignment → Result (Row × Consignment)
create_row none c = ok (some (record c { id = "c" }), record c { id = "c" })
create_row (some row) c = err "the table is full"

abbrev table : ConsignmentTable Row
table = record {
  first_cha = λ s id. ok tt;
  first = first_row;
  create = create_row;
  save = save_row;
  commit = λ s. ok s;
}

first_row-id : (s : Row) (id : String) (c : Consignment) → first_row s id ≡ ok c → c.id ≡ id
unfolding first_row
first_row-id none id c h = absurd cc
first_row-id (some row) id c h = elim (Bool-cases (row.id == id)) [
  | inl e ↦ let k = ok-inj (rw e at h) in rw (← k) ((eq_iff row.id id).0 e)
  | inr ne ↦ let no : Path (Result Consignment) (err _) (ok c) = rw ne at h in absurd cc
]

first_row-save : (s s' : Row) (c : Consignment) → save_row s c ≡ ok s' → some c ≡ s'
unfolding save_row
first_row-save none s' c h = ok-inj h
first_row-save (some row) s' c h = elim (Bool-cases (row.id == c.id)) [
  | inl e ↦ ok-inj (rw e at h)
  | inr ne ↦ let no : Path (Result Row) (err _) (ok s') = rw ne at h in absurd cc
]

first_row-save_ne :
    (s s' : Row) (c : Consignment) (id : String)
    → save_row s c ≡ ok s'
    → c.id ≢ id
    → first_row s' id ≡ first_row s id
unfolding save_row first_row
first_row-save_ne none s' c id h ne = rw (← ok-inj h) (ground (arith, eq_iff c.id id))
first_row-save_ne (some row) s' c id h ne = elim (Bool-cases (row.id == c.id)) [
  | inl e ↦
      let k : some c ≡ s' = ok-inj (rw e at h) in
      rw (← k) (ground (arith, eq_iff c.id id, eq_iff row.id id, eq_iff row.id c.id))
  | inr n ↦ let no : Path (Result Row) (err _) (ok s') = rw n at h in absurd cc
]

first_row-create :
    (s s' : Row) (c stored old : Consignment) (id : String)
    → create_row s c ≡ ok (s', stored)
    → first_row s id ≡ ok old
    → first_row s' id ≡ ok old
unfolding create_row first_row
first_row-create none s' c stored old id h found = absurd cc
first_row-create (some row) s' c stored old id h found = absurd cc

table-IsConsignmentTable : IsConsignmentTable table
unfolding first_row
table-IsConsignmentTable = record {
  first_id = first_row-id;
  first-save_self =
      λ s s' c old was saved. rw (← first_row-save s s' c saved) (rw (eq_refl c.id) refl);
  first-save_ne = first_row-save_ne;
  first-create = first_row-create;
  commit_all = λ s s' e. sym (ok-inj e);
}

abbrev find_template : FindTemplate Row
find_template s code flow = ok (some "{}")

abbrev start_workflow : StartWorkflow (List String)
start_workflow w id definition context = (id ∷ w, ok tt)

abbrev shell : Consignment
shell = record {
  id = "c";
  flow = "IMPORT";
  trader_id = "t";
  cha_id = "h";
  state = initialized;
  items = [];
}

initialize_consignment-Outcome_example :
    Outcome table table-IsConsignmentTable find_template start_workflow
      (some shell)
      []
      "c"
      []
      ("0902" ∷ [])
      (initialize_consignment table find_template start_workflow
        (some shell)
        []
        "c"
        ("0902" ∷ [])
        [])
initialize_consignment-Outcome_example =
    initialize_consignment-Outcome table table-IsConsignmentTable find_template start_workflow
      (some shell) [] "c" [] ("0902" ∷ [])

perform_all-IsFurther_example :
    IsFurther table
      (perform_all table find_template start_workflow
        (some shell)
        []
        (initialize "c" ("0902" ∷ []) [] ∷ complete "c" ∷ [])).0
      "c"
      0
unfolding first_row
perform_all-IsFurther_example =
    perform_all-IsFurther table table-IsConsignmentTable find_template start_workflow (some shell)
      [] (initialize "c" ("0902" ∷ []) [] ∷ complete "c" ∷ []) "c" shell refl
