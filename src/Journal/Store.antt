-- ===== src/Journal/Store.antt =====
-- The two ways to change durable state: mutateHistoryChecked of
-- internal/controllers/history_store.go, for the journal, and mutateStatusChecked of status.go and
-- status_budget.go, for the status. What the API server answers is an argument, for each attempt.
use hpa_plus.Prelude.{
  ℤ, ℕ, zero, suc, ltb, leb, ◌==ℤ◌, same_text, Bool, true, false, not, ◌&&◌, Option, none, some,
  if◌then◌else◌, Result, ok, err, ◌>>=◌, ◌>>◌,
}
use hpa_plus.Api.Types.{HpaPlusStatus}
use hpa_plus.Journal.Types.{
  ScaleDecision, Owner, Failure, cancelled, owner_unread, owner_changed, conflict, store_failed,
  status_capacity, World, Outcome, Platform,
}

-- `latest` is the resource that the decision was made for, and is not being deleted.
unfoldable pub same_owner : Owner → Owner → Bool
same_owner instance_ latest =
    same_text latest.uid instance_.uid
    && latest.generation ==ℤ instance_.generation
    && not latest.deleting

-- A read of the owner that failed is `none`.
unfoldable pub check_owner : Owner → Option Owner → Result Failure (Unit {0})
check_owner instance_ none = err owner_unread
check_owner instance_ (some latest) =
    if same_owner instance_ latest then ok tt else err owner_changed

-- `lost`: the write took effect, and an error came back.
pub data CommitReply : Type 0 where
  saved conflicted failed lost : CommitReply

pub data Attempt : Type 0 where
  done : Outcome → Attempt
  again : Attempt

pub record HistoryReply : Type 0 where
  pub owner : Option Owner
  pub loaded : Bool
  pub now : ℤ
  pub current_owner : Option Owner
  pub commit : CommitReply

-- The mutation of the journal: `none` where nothing changes.
abbrev pub Mutation : Type 0
Mutation = ℤ → Option ScaleDecision → Result Failure (Option (Option ScaleDecision))

unfoldable pub commit_history : CommitReply → Option ScaleDecision → World → Attempt
commit_history saved j w = done (record w { journal = j }, ok tt)
commit_history conflicted j w = again
commit_history failed j w = done (w, err store_failed)
commit_history lost j w = done (record w { journal = j }, err store_failed)

unfoldable pub publish_history : Owner → HistoryReply → Option ScaleDecision → World → Attempt
publish_history instance_ r j w = elim (check_owner instance_ r.current_owner) [
  | err e ↦ done (w, err e)
  | ok valid ↦ commit_history r.commit j w
]

abbrev pub load_history : Bool → Result Failure (Unit {0})
load_history true = ok tt
load_history false = err store_failed

unfoldable pub history_attempt : Owner → Mutation → HistoryReply → World → Attempt
history_attempt instance_ mutate r w =
    elim (check_owner instance_ r.owner >> load_history r.loaded >> mutate r.now w.journal) [
      | err e ↦ done (w, err e)
      | ok none ↦ done (w, ok tt)
      | ok (some j) ↦ publish_history instance_ r j w
    ]

-- `for attempt := 0; attempt < 5; attempt++`, with the replies by the attempts that are left.
unfoldable pub history_loop : Owner → Mutation → (ℕ → HistoryReply) → ℕ → World → Outcome
history_loop instance_ mutate replies zero w = (w, err conflict)
history_loop instance_ mutate replies (suc n) w =
    let rest = history_loop instance_ mutate replies n w in
    elim (history_attempt instance_ mutate (replies n) w) [ done o ↦ o | again ↦ rest ]

abbrev pub mutate_history : Owner → Mutation → (ℕ → HistoryReply) → World → Outcome
mutate_history instance_ mutate replies w = history_loop instance_ mutate replies 5 w

abbrev pub encoded : Option ℕ → Result Failure ℕ
encoded none = err store_failed
encoded (some size) = ok size

-- A status that was too large already may shrink, or keep its size.
abbrev pub may_shrink : ℕ → ℕ → ℕ → Result Failure (Unit {0})
may_shrink limit size previous =
    if ltb limit previous && leb size previous then ok tt else err status_capacity

unfoldable pub check_status_budget :
    (HpaPlusStatus → Option ℕ) → (base proposed : HpaPlusStatus) → ℕ → Result Failure (Unit {0})
check_status_budget bytes base proposed limit = encoded (bytes proposed) >>= λ size.
    (if leb size limit then ok tt else (encoded (bytes base) >>= may_shrink limit size))

abbrev pub max_status_bytes : ℕ
max_status_bytes = 262144

-- maxAccountingStatusBytes.
abbrev pub max_accounting_bytes : ℕ
max_accounting_bytes = 196608

pub record StatusReply : Type 0 where
  pub alive : Bool
  pub owner : Option Owner
  pub now : ℤ
  pub patch : CommitReply

abbrev pub StatusMutation : Type 0
StatusMutation = ℤ → HpaPlusStatus → Result Failure HpaPlusStatus

unfoldable pub patch_status : CommitReply → HpaPlusStatus → World → Attempt
patch_status saved s w = done (record w { status = s }, ok tt)
patch_status conflicted s w = again
patch_status failed s w = done (w, err store_failed)
patch_status lost s w = done (record w { status = s }, err store_failed)

abbrev pub check_alive : Bool → Result Failure (Unit {0})
check_alive true = ok tt
check_alive false = err cancelled

module _ (p : Platform) where
  unfoldable pub publish_status : CommitReply → HpaPlusStatus → World → Attempt
  publish_status reply s w =
      if p.deep_equal w.status s
      then done (w, ok tt)
      else elim (check_status_budget p.complete_bytes w.status s max_status_bytes) [
        | err e ↦ done (w, err e)
        | ok fits ↦ patch_status reply s w
      ]

  unfoldable pub status_attempt : Owner → StatusMutation → StatusReply → World → Attempt
  status_attempt instance_ mutate r w =
      elim (check_alive r.alive >> check_owner instance_ r.owner >> mutate r.now w.status) [
        | err e ↦ done (w, err e)
        | ok s ↦ publish_status r.patch s w
      ]

  -- retry.RetryOnConflict.
  unfoldable pub status_loop : Owner → StatusMutation → (ℕ → StatusReply) → ℕ → World → Outcome
  status_loop instance_ mutate replies zero w = (w, err conflict)
  status_loop instance_ mutate replies (suc n) w =
      let rest = status_loop instance_ mutate replies n w in
      elim (status_attempt instance_ mutate (replies n) w) [ done o ↦ o | again ↦ rest ]

  abbrev pub mutate_status : Owner → StatusMutation → (ℕ → StatusReply) → World → Outcome
  mutate_status instance_ mutate replies w = status_loop instance_ mutate replies p.steps w
