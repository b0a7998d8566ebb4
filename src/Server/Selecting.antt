-- ===== src/Server/Selecting.antt =====
-- internal/server/server.go: the comparisons that `filterJobs` hands to `sort.Slice`, which asks for a
-- strict order.
use cartolensia.Prelude.{
  ℕ, Bool, true, false, not, ◌&&◌, ◌||◌, ◌≡◌, inl, inr, refl, sym, ◌∙◌, arith, eqb, ltb, Text,
  text_eq, string_eq, ◌==◌, eq_iff, same_refl, Bool-cases, if◌then◌else◌,
}
use cartolensia.Texts.{bytes}
use cartolensia.Jobs.{Job}
use cartolensia.Jobs.States.{Status, status_text, queued, other, same_status_iff, status_eq}
use cartolensia.Queue.Order.{string_before_trans, string_before_irrefl}
use cartolensia.Server.JobList.{
  is_newer, is_older, active_before, kind_before, status_before, job_before, job_status_priority,
  is_active_job_status,
}

-- Nothing comes before itself, and what comes before something comes before all that it is before.
abbrev pub IsStrictOrder : (Job → Job → Bool) → Type 0
IsStrictOrder before =
    ((a : Job) → before a a ≡ false)
    × ((a b c : Job) → before a b ≡ true → before b c ≡ true → before a c ≡ true)

newer-IsStrictOrder : IsStrictOrder is_newer
newer-IsStrictOrder = ((λ a. ground arith), (λ a b c h k. ground (arith, h, k)))

older-IsStrictOrder : IsStrictOrder is_older
older-IsStrictOrder = ((λ a. ground arith), (λ a b c h k. ground (arith, h, k)))

kind-IsStrictOrder : IsStrictOrder kind_before
unfolding kind_before
kind-IsStrictOrder = (
  (λ a. rw (same_refl a.kind) (ground arith)),
  (λ a b c h k. ground (
    arith,
    h,
    k,
    eq_iff a.kind b.kind,
    eq_iff b.kind c.kind,
    eq_iff a.kind c.kind,
    string_before_trans a.kind b.kind c.kind,
    string_before_irrefl a.kind,
  )),
)

-- Jobs of these statuses are listed oldest first.
abbrev is_rising : Status → Bool
is_rising status = status == queued || is_active_job_status status

-- Statuses of the same priority are listed alike.
same_priority :
    (s t : Status)
    → eqb (job_status_priority s) (job_status_priority t) ≡ true
    → ((s == queued && t == queued || is_active_job_status s && is_active_job_status t)
        ≡ is_rising s)
      × (is_rising s ≡ is_rising t)
unfolding job_status_priority is_active_job_status
same_priority (other s) (other t) h = (refl, refl)
same_priority _ _ h = ground (arith, h)

-- By priority, and within one by time, rising or falling.
abbrev ranked : ℕ → ℕ → Bool → ℕ → ℕ → Bool
ranked p q rising s t = if not (eqb p q) then ltb p q else if rising then ltb s t else ltb t s

ranked_trans :
    (p q r s t u : ℕ) (x y : Bool)
    → (eqb p q ≡ true → x ≡ y)
    → ranked p q x s t ≡ true
    → ranked q r y t u ≡ true
    → ranked p r x s u ≡ true
ranked_trans p q r s t u true true e h k = ground (arith, h, k)
ranked_trans p q r s t u false false e h k = ground (arith, h, k)
ranked_trans p q r s t u true false e h k = ground (arith, e, h, k)
ranked_trans p q r s t u false true e h k = ground (arith, e, h, k)

abbrev by_priority : Job → Job → Bool
by_priority a b =
    ranked (job_status_priority a.status) (job_status_priority b.status) (is_rising a.status)
      a.created_at b.created_at

active_before-by_priority : (a b : Job) → active_before a b ≡ by_priority a b
unfolding active_before
active_before-by_priority a b = ground (arith, same_priority a.status b.status)

priority-IsStrictOrder : IsStrictOrder by_priority
priority-IsStrictOrder = (
  (λ a. ground arith),
  (λ a b c h k.
      ranked_trans (job_status_priority a.status) (job_status_priority b.status)
        (job_status_priority c.status) a.created_at b.created_at c.created_at (is_rising a.status)
        (is_rising b.status) (λ e. (same_priority a.status b.status e).1) h k),
)

order_of :
    (before same_as : Job → Job → Bool)
    → ((a b : Job) → before a b ≡ same_as a b)
    → IsStrictOrder same_as
    → IsStrictOrder before
order_of before same_as e (irrefl, trans) = (
  (λ a. e a a ∙ irrefl a),
  (λ a b c h k. e a c ∙ trans a b c (sym (e a b) ∙ h) (sym (e b c) ∙ k)),
)

status-IsStrictOrder : IsStrictOrder status_before
unfolding status_before
status-IsStrictOrder = (
  (λ a. rw (same_refl a.status) (ground arith)),
  (λ a b c h k. ground (
    arith,
    h,
    k,
    same_status_iff a.status b.status,
    same_status_iff b.status c.status,
    same_status_iff a.status c.status,
    string_before_trans (status_text a.status) (status_text b.status) (status_text c.status),
    string_before_irrefl (status_text a.status),
  )),
)

job_before-IsStrictOrder : (key : Text) → IsStrictOrder (job_before key)
unfolding job_before
job_before-IsStrictOrder key = elim (Bool-cases (key == bytes "active")) [
  | inl a ↦
      rw (job_before, a)
        (order_of active_before by_priority active_before-by_priority priority-IsStrictOrder)
  | inr a ↦ elim (Bool-cases (key == bytes "created_at")) [
    | inl b ↦ rw (job_before, a, b) older-IsStrictOrder
    | inr b ↦ elim (Bool-cases (key == bytes "kind")) [
      | inl c ↦ rw (job_before, a, b, c) kind-IsStrictOrder
      | inr c ↦ elim (Bool-cases (key == bytes "status")) [
        | inl d ↦ rw (job_before, a, b, c, d) status-IsStrictOrder
        | inr d ↦ rw (job_before, a, b, c, d) newer-IsStrictOrder
      ]
    ]
  ]
]

-- Whatever order a query asks for, a job that comes before a second one, which comes before a third, comes
-- before the third, and the third does not come before it.
pub job_before_trans :
    (key : Text) (a b c : Job)
    → job_before key a b ≡ true
    → job_before key b c ≡ true
    → (job_before key a c ≡ true) × (job_before key c a ≡ false)
job_before_trans key a b c h k =
    let (irrefl, trans) = job_before-IsStrictOrder key in
    let far = trans a b c h k in
    (
      far,
      elim (Bool-cases (job_before key c a)) [
        | inl back ↦ cc (trans a c a far back, irrefl a)
        | inr none_back ↦ none_back
      ],
    )
