-- ===== src/Conditions/Laws.antt =====
-- Setting and reading conditions (pkg/apis/metering/v1/util/report_util.go).
use operator_metering.Prelude.{
  String, ◌≡◌, ◌≢◌, ◌∙◌, refl, ap, Bool, true, false, Option, none, some, List, [], ◌∷◌, ◌++◌,
  arith, str_eq, eq_iff, Bool-cases, Option-cases, inl, inr, if◌then◌else◌,
}
use text.Mathlib.TextPositions.{eq_refl}
use operator_metering.Conditions.{
  ReportCondition, get_report_condition, filter_out_condition, is_current, with_transition,
  set_report_condition, remove_report_condition,
}

get-filter_out :
    (cs : List ReportCondition) (t u : String)
    → get_report_condition (filter_out_condition cs t) u
      ≡ (if str_eq t u then none else get_report_condition cs u)
unfolding get_report_condition filter_out_condition
get-filter_out [] t u = ground arith
get-filter_out (c ∷ cs) t u =
    ground (arith, get-filter_out cs t u, eq_iff c.type t, eq_iff c.type u, eq_iff t u)

or_else : Option ReportCondition → Option ReportCondition → Option ReportCondition
or_else none y = y
or_else (some c) y = some c

get-append :
    (cs ds : List ReportCondition) (t : String)
    → get_report_condition (cs ++ ds) t
      ≡ or_else (get_report_condition cs t) (get_report_condition ds t)
unfolding get_report_condition or_else
get-append [] ds t = refl
get-append (c ∷ cs) ds t = ground (arith, get-append cs ds t)

with_transition-type :
    (cur : Option ReportCondition) (c : ReportCondition) → (with_transition cur c).type ≡ c.type
with_transition-type none c = refl
with_transition-type (some cur) c = ground arith

get-single :
    (d : ReportCondition) (k t : String)
    → d.type ≡ k
    → get_report_condition (d ∷ []) t ≡ (if str_eq k t then some d else none)
unfolding get_report_condition
get-single d k t e =
    ap (λ (x : String). let o : Option ReportCondition = if str_eq x t then some d else none in o) e

get-replace :
    (cs : List ReportCondition) (d : ReportCondition) (k t : String)
    → d.type ≡ k
    → get_report_condition (filter_out_condition cs k ++ d ∷ []) t
      ≡ (if str_eq k t then some d else get_report_condition cs t)
unfolding or_else
get-replace cs d k t e =
    rw get-append (rw get-filter_out (rw (get-single d k t e) (go (str_eq k t))))
  where
    go :
        (b : Bool)
        → or_else (if b then none else get_report_condition cs t) (if b then some d else none)
          ≡ (if b then some d else get_report_condition cs t)
    go true = refl
    go false = elim (Option-cases (get_report_condition cs t)) [
      | inl n ↦ rw n refl
      | inr (x, n) ↦ rw n refl
    ]

get-set :
    (cs : List ReportCondition) (c : ReportCondition) (t : String)
    → get_report_condition (set_report_condition cs c) t ≡ (
        if str_eq c.type t
        then (if is_current (get_report_condition cs c.type) c
            then get_report_condition cs c.type
            else some (with_transition (get_report_condition cs c.type) c))
        else get_report_condition cs t)
unfolding set_report_condition
get-set cs c t = elim (Bool-cases (is_current (get_report_condition cs c.type) c)) [
  | inl same ↦ rw same (ground (arith, eq_iff c.type t))
  | inr new ↦ rw new (
      get-replace cs (with_transition (get_report_condition cs c.type) c) c.type t
        (with_transition-type (get_report_condition cs c.type) c))
]

-- What is read for the type of a condition that was set, `d`, where `cur` was read before: the old one if it has the same status and
-- reason, else the new one, with the old transition time if the status is the same.
pub record Replaces (cur c : ReportCondition) (d : Option ReportCondition) : Type 0 where
  pub same : cur.status ≡ c.status → cur.reason ≡ c.reason → d ≡ some cur
  pub other_reason :
      cur.status ≡ c.status
      → cur.reason ≢ c.reason
      → d ≡ some (record c { last_transition_time = cur.last_transition_time })
  pub other_status : cur.status ≢ c.status → d ≡ some c

abbrev pub IsStored : Option ReportCondition → ReportCondition → Option ReportCondition → Type 0
IsStored none c d = d ≡ some c
IsStored (some cur) c d = Replaces cur c d

set-IsStored :
    (o : Option ReportCondition) (c : ReportCondition)
    → IsStored o c (if is_current o c then o else some (with_transition o c))
set-IsStored none c = refl
set-IsStored (some cur) c = record {
  same = λ s r. ground (arith, s, r, eq_iff cur.status c.status, eq_iff cur.reason c.reason);
  other_reason =
      λ s r. ground (arith, s, r, eq_iff cur.status c.status, eq_iff cur.reason c.reason);
  other_status = λ s. ground (arith, s, eq_iff cur.status c.status);
}

-- Setting a condition leaves the conditions of other types as they were. For its own type the condition that is read afterwards
-- is the new one if there was none; the old one if that has the same status and reason; the new one with the old
-- transition time if only the reason differs; and the new one as it is if the status differs.
pub get-set_report_condition :
    (cs : List ReportCondition) (c : ReportCondition)
    → IsStored
        (get_report_condition cs c.type)
        c
        (get_report_condition (set_report_condition cs c) c.type)
      × ((t : String)
          → c.type ≢ t
          → get_report_condition (set_report_condition cs c) t ≡ get_report_condition cs t)
get-set_report_condition cs c = (
  rw get-set (rw (eq_refl c.type) (set-IsStored (get_report_condition cs c.type) c)),
  λ t n. get-set cs c t ∙ ground (arith, n, eq_iff c.type t),
)

stored :
    (o : Option ReportCondition) (c : ReportCondition)
    → (d : ReportCondition) × ((if is_current o c then o else some (with_transition o c)) ≡ some d)
      × (d.status ≡ c.status)
      × (d.reason ≡ c.reason)
stored none c = (c, refl, refl, refl)
stored (some cur) c = elim (Bool-cases (is_current (some cur) c)) [
  | inl s ↦ (
    cur,
    rw s refl,
    ground (arith, eq_iff cur.status c.status, s),
    ground (arith, eq_iff cur.reason c.reason, s),
  )
  | inr s ↦ (with_transition (some cur) c, rw s refl, ground arith, ground arith)
]

-- After a condition was set, the one read for its type has its status and its reason.
pub set-is_current :
    (cs : List ReportCondition) (c : ReportCondition)
    → (d : ReportCondition) × (get_report_condition (set_report_condition cs c) c.type ≡ some d)
      × (d.status ≡ c.status)
      × (d.reason ≡ c.reason)
set-is_current cs c = rw get-set (rw (eq_refl c.type) (stored (get_report_condition cs c.type) c))

-- No two conditions have one type.
abbrev pub HasUniqueTypes : List ReportCondition → Type 0
HasUniqueTypes [] = Unit
HasUniqueTypes (c ∷ cs) = (get_report_condition cs c.type ≡ none) × HasUniqueTypes cs

filter_out-HasUniqueTypes :
    (cs : List ReportCondition) (t : String)
    → HasUniqueTypes cs
    → HasUniqueTypes (filter_out_condition cs t)
unfolding filter_out_condition
filter_out-HasUniqueTypes [] t h = tt
filter_out-HasUniqueTypes (c ∷ cs) t h = elim (Bool-cases (str_eq c.type t)) [
  | inl e ↦ rw e (filter_out-HasUniqueTypes cs t h.1)
  | inr n ↦
      rw n
        (rw (get-filter_out cs t c.type) (ground (arith, h.0)), filter_out-HasUniqueTypes cs t h.1)
]

append-HasUniqueTypes :
    (cs : List ReportCondition) (d : ReportCondition)
    → get_report_condition cs d.type ≡ none
    → HasUniqueTypes cs
    → HasUniqueTypes (cs ++ d ∷ [])
unfolding get_report_condition
append-HasUniqueTypes [] d n h = (refl, tt)
append-HasUniqueTypes (c ∷ cs) d n h = (
  rw get-append (unfold or_else in ground (arith, h.0, eq_iff d.type c.type, eq_iff c.type d.type)),
  append-HasUniqueTypes cs d (ground arith) h.1,
)

-- Setting and removing conditions keep their types distinct.
pub set-HasUniqueTypes :
    (cs : List ReportCondition) (c : ReportCondition) (t : String)
    → HasUniqueTypes cs
    → HasUniqueTypes (set_report_condition cs c) × HasUniqueTypes (remove_report_condition cs t)
unfolding set_report_condition remove_report_condition
set-HasUniqueTypes cs c t h = (
  elim (Bool-cases (is_current (get_report_condition cs c.type) c)) [
    | inl s ↦ rw s h
    | inr s ↦ rw s (
        append-HasUniqueTypes (filter_out_condition cs c.type)
          (with_transition (get_report_condition cs c.type) c)
          (rw (with_transition-type, get-filter_out, eq_refl) refl)
          (filter_out-HasUniqueTypes cs c.type h))
  ],
  filter_out-HasUniqueTypes cs t h,
)

-- Setting a condition whose status and reason are those of the one that is there changes nothing,
-- its message and times included.
pub set-unchanged :
    (cs : List ReportCondition) (c cur : ReportCondition)
    → get_report_condition cs c.type ≡ some cur
    → cur.status ≡ c.status
    → cur.reason ≡ c.reason
    → set_report_condition cs c ≡ cs
unfolding set_report_condition
set-unchanged cs c cur h s r =
    rw h (ground (arith, eq_iff cur.status c.status, eq_iff cur.reason c.reason))
