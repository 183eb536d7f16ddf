-- ===== src/Emit/Partners.antt =====
-- The partners of a report and its cluster (src/obehy/realtime/emit/pairing.py).
use obehy.Prelude.{
  ℕ, zero, suc, ◌+◌, not, ◌&&◌, ◌||◌, Option, none, some, List, [], ◌∷◌, ◌==◌, string_eq,
  if◌then◌else◌,
}
use obehy.Prelude.Dict.{Dict}
use obehy.Prelude.Lists.{contains, length}
use obehy.Prelude.Sort.{sort_by}
use obehy.Model.Journey.{journey_key_eq}
use obehy.Emit.Pairing.{report_eq, pair_eq, Report, Pair, report_lt, Evidence, Pairings}

-- The other report of a pair that `report` is in.
unfoldable pub partners_in : Report → Dict Pair Evidence → List Report
partners_in report [] = []
partners_in report (((a, b), evidence) ∷ rest) =
    let others = partners_in report rest in
    if evidence.confirmed && (a == report || b == report)
    then (if a == report then b else a) ∷ others
    else others

abbrev pub sorted_reports : List Report → List Report
sorted_reports = sort_by (λ a b. not (report_lt b a))

-- `partners`
unfoldable pub partners : Pairings → Report → List Report
unfolding partners_in
partners p report = sorted_reports (partners_in report p.pairs)

-- The loop of `cluster` over the partners of one report.
unfoldable pub visit : List Report → List Report × List Report → List Report × List Report
visit [] acc = acc
visit (r ∷ rs) (seen, frontier) =
    visit rs (if contains r seen then (seen, frontier) else (r ∷ seen, r ∷ frontier))

-- The loop of `cluster`, a pass per unit of fuel; the last of the frontier stands first.
unfoldable pub spread : Pairings → ℕ → List Report → List Report → Option (List Report)
unfolding visit
spread p fuel seen [] = some seen
spread p zero seen (r ∷ frontier) = none
spread p (suc fuel) seen (r ∷ frontier) =
    let next = visit (partners p r) (seen, frontier) in spread p fuel next.0 next.1

-- Each report is put on the frontier once, and all but the first are in some pair.
abbrev pub enough : Pairings → ℕ
enough p = length p.pairs + length p.pairs + 1

-- `cluster`
unfoldable pub cluster : Pairings → Report → Option (List Report)
unfolding spread
cluster p report = elim (spread p (enough p) (report ∷ []) (report ∷ [])) [
  | none ↦ none
  | some seen ↦ some (sorted_reports seen)
]
