-- ===== src/Advisories/Cvss/Laws.antt =====
-- Bounds and monotonicity of the CVSS v3 base score of app/core/cvss.py.
use weedout.Advisories.Cvss.{
  AttackVector, network, adjacent, local, physical, Complexity, easy, hard, Privileges,
  no_privileges, some_privileges, full_privileges, Interaction, no_interaction, required, Impact,
  no_impact, partial, total, impact_weight, Metrics, base_score,
}
use weedout.Advisories.Cvss.Vectors.{in_name, find_metrics, parse_metrics, tenth, score_cvss_vector}
use weedout.Base.{
  ℕ, ◌*◌, ◌≤◌, ◌≡◌, refl, Bool, true, false, ◌&&◌, ◌||◌, Option, none, some, [], arith, ltb, leb,
  if◌then◌else◌,
}
use weedout.Base.Maybe.{map_option}
use weedout.Base.Text.{Text, text, upper, starts_with, strip}
use weedout.Types.{Score}

all_vectors : (AttackVector → Bool) → Bool
all_vectors p = p network && p adjacent && p local && p physical

all_complexities : (Complexity → Bool) → Bool
all_complexities p = p easy && p hard

all_privileges : (Privileges → Bool) → Bool
all_privileges p = p no_privileges && p some_privileges && p full_privileges

all_interactions : (Interaction → Bool) → Bool
all_interactions p = p no_interaction && p required

all_scopes : (Bool → Bool) → Bool
all_scopes p = p false && p true

all_impacts : (Impact → Bool) → Bool
all_impacts p = p no_impact && p partial && p total

all_metrics : (Metrics → Bool) → Bool
all_metrics p = all_vectors (λ av. all_complexities (λ ac. all_privileges (λ pr.
    all_interactions (λ ui. all_scopes (λ s. all_impacts (λ c. all_impacts (λ i. all_impacts (λ a.
      p record {
        vector = av;
        complexity = ac;
        privileges = pr;
        interaction = ui;
        scope_changed = s;
        confidentiality = c;
        integrity = i;
        availability = a;
      }))))))))

all_vectors_sound :
    (p : AttackVector → Bool) → all_vectors p ≡ true → (x : AttackVector) → p x ≡ true
unfolding all_vectors
all_vectors_sound p h network = ground arith
all_vectors_sound p h adjacent = ground arith
all_vectors_sound p h local = ground arith
all_vectors_sound p h physical = ground arith

all_complexities_sound :
    (p : Complexity → Bool) → all_complexities p ≡ true → (x : Complexity) → p x ≡ true
unfolding all_complexities
all_complexities_sound p h easy = ground arith
all_complexities_sound p h hard = ground arith

all_privileges_sound :
    (p : Privileges → Bool) → all_privileges p ≡ true → (x : Privileges) → p x ≡ true
unfolding all_privileges
all_privileges_sound p h no_privileges = ground arith
all_privileges_sound p h some_privileges = ground arith
all_privileges_sound p h full_privileges = ground arith

all_interactions_sound :
    (p : Interaction → Bool) → all_interactions p ≡ true → (x : Interaction) → p x ≡ true
unfolding all_interactions
all_interactions_sound p h no_interaction = ground arith
all_interactions_sound p h required = ground arith

all_scopes_sound : (p : Bool → Bool) → all_scopes p ≡ true → (x : Bool) → p x ≡ true
unfolding all_scopes
all_scopes_sound p h false = ground arith
all_scopes_sound p h true = ground arith

all_impacts_sound : (p : Impact → Bool) → all_impacts p ≡ true → (x : Impact) → p x ≡ true
unfolding all_impacts
all_impacts_sound p h no_impact = ground arith
all_impacts_sound p h partial = ground arith
all_impacts_sound p h total = ground arith

all_metrics_sound : (p : Metrics → Bool) → all_metrics p ≡ true → (m : Metrics) → p m ≡ true
unfolding all_metrics
all_metrics_sound p h m =
    let h = all_vectors_sound _ h m.vector in
    let h = all_complexities_sound _ h m.complexity in
    let h = all_privileges_sound _ h m.privileges in
    let h = all_interactions_sound _ h m.interaction in
    let h = all_scopes_sound _ h m.scope_changed in
    let h = all_impacts_sound _ h m.confidentiality in
    let h = all_impacts_sound _ h m.integrity in let h = all_impacts_sound _ h m.availability in h

bounds_checked : all_metrics (λ n. leb (base_score n) 100) ≡ true
unfolding base_score all_metrics all_vectors all_complexities all_privileges all_interactions
    all_scopes all_impacts
bounds_checked = refl

base_score-bounded : (m : Metrics) → base_score m ≤ 100
base_score-bounded m =
    ground (arith, all_metrics_sound (λ n. leb (base_score n) 100) bounds_checked m)

-- A score of a vector is a whole number of tenths, at most 10.0.
pub score_cvss_vector-bounded :
    (v : Text) (s : Score) → score_cvss_vector v ≡ some s → (t : ℕ) × (s ≡ t * tenth) × (t ≤ 100)
unfolding score_cvss_vector
score_cvss_vector-bounded v s h =
    go (starts_with (text "CVSS:3") (upper (strip v)))
      (parse_metrics (find_metrics (in_name []) (upper (strip v)))) h
  where
    go :
        (b : Bool) (o : Option Metrics)
        → (if b then map_option (λ m. base_score m * tenth) o else none) ≡ some s
        → (t : ℕ) × (s ≡ t * tenth) × (t ≤ 100)
    go true (some m) e = (base_score m, cc, base_score-bounded m)
    go true none e = cc
    go false o e = cc

-- The same metrics, with other impacts on confidentiality, integrity and availability
abbrev pub with_impacts : Metrics → Impact → Impact → Impact → Metrics
with_impacts m c i a = record {
  vector = m.vector;
  complexity = m.complexity;
  privileges = m.privileges;
  interaction = m.interaction;
  scope_changed = m.scope_changed;
  confidentiality = c;
  integrity = i;
  availability = a;
}

no_lower : Impact → Impact → Metrics → Metrics → Bool
unfolding impact_weight
no_lower x y m n = ltb (impact_weight y) (impact_weight x) || leb (base_score m) (base_score n)

no_lower-le :
    (x y : Impact) (m n : Metrics)
    → no_lower x y m n ≡ true
    → impact_weight x ≤ impact_weight y
    → base_score m ≤ base_score n
unfolding no_lower
no_lower-le x y m n h le = ground arith

confidentiality_checked :
    all_metrics (λ n.
      all_impacts
        (λ x. no_lower n.confidentiality x n (with_impacts n x n.integrity n.availability)))
    ≡ true
unfolding no_lower base_score all_metrics all_vectors all_complexities all_privileges
    all_interactions all_scopes all_impacts
confidentiality_checked = refl

confidentiality_mono :
    (m : Metrics) (c : Impact)
    → impact_weight m.confidentiality ≤ impact_weight c
    → base_score m ≤ base_score (with_impacts m c m.integrity m.availability)
confidentiality_mono m c =
    no_lower-le m.confidentiality c m _
      (all_impacts_sound _ (all_metrics_sound _ confidentiality_checked m) c)

integrity_checked :
    all_metrics (λ n.
      all_impacts
        (λ x. no_lower n.integrity x n (with_impacts n n.confidentiality x n.availability)))
    ≡ true
unfolding no_lower base_score all_metrics all_vectors all_complexities all_privileges
    all_interactions all_scopes all_impacts
integrity_checked = refl

integrity_mono :
    (m : Metrics) (i : Impact)
    → impact_weight m.integrity ≤ impact_weight i
    → base_score m ≤ base_score (with_impacts m m.confidentiality i m.availability)
integrity_mono m i =
    no_lower-le m.integrity i m _ (all_impacts_sound _ (all_metrics_sound _ integrity_checked m) i)

availability_checked :
    all_metrics (λ n.
      all_impacts
        (λ x. no_lower n.availability x n (with_impacts n n.confidentiality n.integrity x)))
    ≡ true
unfolding no_lower base_score all_metrics all_vectors all_complexities all_privileges
    all_interactions all_scopes all_impacts
availability_checked = refl

availability_mono :
    (m : Metrics) (a : Impact)
    → impact_weight m.availability ≤ impact_weight a
    → base_score m ≤ base_score (with_impacts m m.confidentiality m.integrity a)
availability_mono m a =
    no_lower-le m.availability a m _
      (all_impacts_sound _ (all_metrics_sound _ availability_checked m) a)

-- Greater impacts on confidentiality, integrity and availability never lower the base score.
pub base_score-impacts_mono :
    (m : Metrics) (c i a : Impact)
    → impact_weight m.confidentiality ≤ impact_weight c
    → impact_weight m.integrity ≤ impact_weight i
    → impact_weight m.availability ≤ impact_weight a
    → base_score m ≤ base_score (with_impacts m c i a)
base_score-impacts_mono m c i a hc hi ha = omega (
  arith,
  confidentiality_mono m c hc,
  integrity_mono (with_impacts m c m.integrity m.availability) i hi,
  availability_mono (with_impacts m c i m.availability) a ha,
)
