-- ===== src/Advisories/Osv/Laws.antt =====
-- What `normalize_osv_record` of app/core/osv.py returns.
use weedout.Base.{◌>>=◌}
use weedout.Advisories.Affected.{parse_affected}
use weedout.Advisories.Affected.Laws.{IsEvaluable, filled-some, parse_affected-IsEvaluable}
use weedout.Advisories.Json.{Json, obj, Fields, get, iterate, truthy, filled}
use weedout.Advisories.Osv.{
  extract_references, extract_cwe_ids, qualitative_label, severity_entries, normalize_fields,
  normalize_osv_record,
}
use weedout.Advisories.Severities.{score_to_severity}
use weedout.Advisories.Severities.Laws.{chosen, normalize_severity-IsBest}
use weedout.Base.{
  ℕ, zero, suc, ◌≤◌, ◌≡◌, refl, ap, ◌∙◌, subst, Bool, true, false, Option, none, some, List, [],
  ◌∷◌, arith, if◌then◌else◌, length, take, is_empty, All, ok, Returns, Returns-bind, Returns-any,
}
use weedout.Base.Text.{Text, text}
use weedout.Types.{Severity, Score, AffectedPackage, Vulnerability}

module _ (repr : Json → Text) (float_of : Text → Option Score) where
  -- An advisory that can be stored and matched: it has an identifier and evaluable packages, at most
  -- 20 references and 10 weaknesses, the severity of its score, and the record's withdrawal.
  pub record IsUsable (fs : Fields) (v : Vulnerability) : Type 0 where
    pub identified : is_empty v.id ≡ false
    pub affects : is_empty v.affected ≡ false
    pub evaluable : All IsEvaluable v.affected
    pub few_references : length v.references ≤ 20
    pub few_cwe_ids : length v.cwe_ids ≤ 10
    pub scored : (s : Score) → v.cvss_score ≡ some s → v.severity ≡ score_to_severity (some s)
    pub withdrawal : v.withdrawn ≡ truthy (get (text "withdrawn") fs)

  length-take : {A : Type 0} (n : ℕ) (xs : List A) → length (take n xs) ≤ n
  length-take zero xs = omega arith
  length-take (suc n) [] = omega arith
  length-take (suc n) (x ∷ xs) = omega (arith, length-take n xs)

  extract_references-few : (v : Json) → Returns (λ us. length us ≤ 20) (extract_references v)
  unfolding extract_references
  extract_references-few v =
      Returns-bind (λ u. Unit) _ (iterate v) _ (Returns-any _) (λ rs u. length-take 20 _)

  extract_cwe_ids-few : (fs : Fields) → Returns (λ us. length us ≤ 10) (extract_cwe_ids fs)
  unfolding extract_cwe_ids
  extract_cwe_ids-few fs =
      Returns-bind (λ u. Unit) _ (iterate (get (text "affected") fs)) _ (Returns-any _)
        (λ rs u. length-take 10 _)

  chosen-scored :
      (severity : Severity) (o : Option Score) (label : Option Text) (s : Score)
      → severity ≡ chosen float_of o label
      → o ≡ some s
      → severity ≡ score_to_severity (some s)
  chosen-scored severity (some t) label s h e = h ∙ ap score_to_severity e
  chosen-scored severity none label s h e = cc

  normalize_fields-IsUsable :
      (id : Text) (ps : List AffectedPackage) (fs : Fields)
      → is_empty id ≡ false
      → is_empty ps ≡ false
      → All IsEvaluable ps
      → Returns (IsUsable fs) (normalize_fields repr float_of id ps fs)
  unfolding normalize_fields
  normalize_fields-IsUsable id ps fs hid hps h =
      Returns-bind (λ u. Unit) _ (qualitative_label fs) _ (Returns-any _)
        (λ label u.
          Returns-bind (λ u. Unit) _ (iterate (get (text "aliases") fs)) _ (Returns-any _)
            (λ raw u.
              Returns-bind (λ us. length us ≤ 20) _
                (extract_references (get (text "references") fs)) _ (extract_references-few _)
                (λ references few.
                  Returns-bind (λ us. length us ≤ 10) _ (extract_cwe_ids fs) _
                    (extract_cwe_ids-few fs)
                    (λ cwe_ids some_ids. record {
                      identified = hid;
                      affects = hps;
                      evaluable = h;
                      few_references = few;
                      few_cwe_ids = some_ids;
                      scored = λ s e.
                          chosen-scored _ _ label s
                            (normalize_severity-IsBest float_of (severity_entries fs) label).1 e;
                      withdrawal = refl;
                    }))))

  -- Where `normalize_osv_record` does not raise, and does not return `None`, the advisory has an
  -- identifier and at least one package, each package can be evaluated, there are at most 20
  -- references and 10 weaknesses, a scored advisory has the severity of its score, and the advisory
  -- is withdrawn exactly where the record's `withdrawn` is a true value.
  pub normalize_osv_record-IsUsable :
      (fs : Fields)
      → Returns
          (λ o. (v : Vulnerability) → o ≡ some v → IsUsable fs v)
          (normalize_osv_record repr float_of (obj fs))
  unfolding normalize_osv_record
  normalize_osv_record-IsUsable fs =
      go (filled (get (text "id") fs)) (filled-some (get (text "id") fs))
    where
      Out : Option Vulnerability → Type 0
      Out o = (v : Vulnerability) → o ≡ some v → IsUsable fs v

      built :
          (id : Text) (ps : List AffectedPackage)
          → is_empty id ≡ false
          → All IsEvaluable ps
          → (b : Bool) → is_empty ps ≡ b
          → Returns Out (
              if b then ok none else (normalize_fields repr float_of id ps fs >>= λ v. ok (some v)))
      built id ps hid h true e = λ v e. cc
      built id ps hid h false e =
          Returns-bind (IsUsable fs) Out (normalize_fields repr float_of id ps fs) _
            (normalize_fields-IsUsable id ps fs hid e h) (λ v u w e. subst (IsUsable fs) (cc) u)

      go :
          (o : Option Text)
          → ((s : Text) → o ≡ some s → is_empty s ≡ false)
          → Returns Out (elim o [
            | none ↦ ok none
            | some id ↦ parse_affected repr (get (text "affected") fs) >>= λ affected.
                if is_empty affected
                then ok none
                else (normalize_fields repr float_of id affected fs >>= λ v. ok (some v))
          ])
      go none h = λ v e. cc
      go (some id) h =
          Returns-bind (All IsEvaluable) Out (parse_affected repr (get (text "affected") fs)) _
            (parse_affected-IsEvaluable repr (get (text "affected") fs))
            (λ ps a. built id ps (h id refl) a (is_empty ps) refl)
