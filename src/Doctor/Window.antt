-- ===== src/Doctor/Window.antt =====
-- pkg/mot/doctor.go: the lag of the secondaries against the window of the oplog.
use mongo_overview_tool.Doctor.Reports.{reports-append, reports-nil, reports}
use mongo_overview_tool.Base.{
  ◌||◌, count, ℕ, ◌+◌, ◌-◌, ◌*◌, ◌/◌, ◌%◌, ◌^◌, ◌<◌, Bool, true, ◌&&◌, List, [], ◌∷◌, ◌++◌, leb,
  ltb, not, if◌then◌else◌, String, ◌≡◌, arith,
}
use mongo_overview_tool.Model.{is_primary, is_secondary, RsMember, RsStatus}
use mongo_overview_tool.Diagnostics.{warning, critical, FindingScope, seconds, DiagnosticFinding}
use mongo_overview_tool.Doctor.{finding, node_scope}
use mongo_overview_tool.Doctor.Members.{is_zero, member_write_time}

-- then.Sub(earlier), of an earlier time: the difference, which stops at the largest int64.
abbrev pub sub_time : ℕ → ℕ → ℕ
sub_time then_time earlier =
    let difference = then_time - earlier in
    if ltb difference (2 ^ 63) then difference else 2 ^ 63 - 1

-- The write time of the first member that says it is PRIMARY, and 0 if there is none.
unfoldable pub primary_applied : List RsMember → ℕ
unfolding member_write_time
primary_applied [] = 0
primary_applied (m ∷ ms) = if is_primary m.state then member_write_time m else primary_applied ms

-- lag >= duration*8/10, with the product as an int64 has it: above its range it is negative, and
-- so is the quotient.
unfoldable pub is_near : ℕ → ℕ → Bool
is_near duration lag =
    let product = duration * 8 % 2 ^ 64 in
    if ltb product (2 ^ 63) then leb (product / 10) lag else true

window_finding : FindingScope → ℕ → ℕ → List DiagnosticFinding
unfolding is_near
window_finding scope duration lag =
    if leb duration lag
    then finding "replication.lag_exceeds_oplog_window" critical scope
        "secondary 复制延迟接近或超过 oplog 可恢复窗口"
        (("lagSeconds", seconds lag) ∷ ("oplogWindowSeconds", seconds duration) ∷ [])
      ∷ []
    else if is_near duration lag
    then finding "replication.lag_near_oplog_window" warning scope "secondary 复制延迟接近或超过 oplog 可恢复窗口"
        (("lagSeconds", seconds lag) ∷ ("oplogWindowSeconds", seconds duration) ∷ [])
      ∷ []
    else []

-- A SECONDARY with a known write time before the PRIMARY's.
unfoldable pub is_behind : ℕ → RsMember → Bool
unfolding member_write_time
is_behind applied m =
    is_secondary m.state
    && (not (is_zero (member_write_time m)) && ltb (member_write_time m) applied)

window_findings : RsStatus → String → ℕ → ℕ → List RsMember → List DiagnosticFinding
unfolding is_behind window_finding member_write_time
window_findings status shard duration applied [] = []
window_findings status shard duration applied (m ∷ ms) =
    (if is_behind applied m
      then window_finding (node_scope status.set shard m.name) duration
          (sub_time applied (member_write_time m))
      else [])
    ++ window_findings status shard duration applied ms

-- The window is given by its earliest and its latest entry.
unfoldable pub evaluate_oplog_window : RsStatus → String → ℕ → ℕ → List DiagnosticFinding
unfolding primary_applied window_findings
evaluate_oplog_window status shard earliest latest =
    if leb latest earliest
    then []
    else if is_zero (primary_applied status.members)
    then []
    else window_findings status shard (sub_time latest earliest) (primary_applied status.members)
        status.members

-- Below 2^60 ns, which are 36 years, the product is exact.
is_near_exact :
    (duration lag : ℕ)
    → duration < 2 ^ 60
    → is_near duration lag ≡ ltb (8 * duration) (10 * lag + 10)
unfolding is_near
is_near_exact duration lag h = ground arith

abbrev lag_of : ℕ → RsMember → ℕ
lag_of applied m = sub_time applied (member_write_time m)

-- A member whose lag is as long as the window.
abbrev pub exceeds : ℕ → ℕ → RsMember → Bool
exceeds duration applied m = is_behind applied m && leb duration (lag_of applied m)

-- A member whose lag is shorter than the window, and no shorter than 8 tenths of it, rounded down.
abbrev pub comes_near : ℕ → ℕ → RsMember → Bool
comes_near duration applied m =
    is_behind applied m
    && (ltb (lag_of applied m) duration && ltb (8 * duration) (10 * lag_of applied m + 10))

reports-window :
    (scope : FindingScope) (duration lag : ℕ)
    → duration < 2 ^ 60
    → (reports "replication.lag_exceeds_oplog_window" (window_finding scope duration lag)
        ≡ (if leb duration lag then 1 else 0))
      × (reports "replication.lag_near_oplog_window" (window_finding scope duration lag)
          ≡ (if ltb lag duration && ltb (8 * duration) (10 * lag + 10) then 1 else 0))
unfolding window_finding reports count
reports-window scope duration lag h = ground (arith, is_near_exact duration lag h)

reports-window_findings :
    (status : RsStatus) (shard : String) (duration applied : ℕ) (ms : List RsMember)
    → duration < 2 ^ 60
    → (reports "replication.lag_exceeds_oplog_window"
          (window_findings status shard duration applied ms)
        ≡ count (exceeds duration applied) ms)
      × (reports "replication.lag_near_oplog_window"
            (window_findings status shard duration applied ms)
          ≡ count (comes_near duration applied) ms)
unfolding window_findings count
reports-window_findings status shard duration applied [] h = (reports-nil _, reports-nil _)
reports-window_findings status shard duration applied (m ∷ ms) h =
    let here =
      if is_behind applied m
      then window_finding (node_scope status.set shard m.name) duration (lag_of applied m)
      else [] in
    let rest = window_findings status shard duration applied ms in
    let ih = reports-window_findings status shard duration applied ms h in
    let w = reports-window (node_scope status.set shard m.name) duration (lag_of applied m) h in
    (
      ground (
        arith,
        reports-append "replication.lag_exceeds_oplog_window" here rest,
        ih.0,
        w.0,
        reports-nil "replication.lag_exceeds_oplog_window",
      ),
      ground (
        arith,
        reports-append "replication.lag_near_oplog_window" here rest,
        ih.1,
        w.1,
        reports-nil "replication.lag_near_oplog_window",
      ),
    )

-- Of a window that is shorter than 2^60 ns. If it is longer than nothing and the write time of the
-- first PRIMARY is known, there is one finding of a lag beyond the window for each secondary whose lag
-- is as long as the window, and one of a lag near it for each whose lag is shorter than the window and
-- no shorter than 8 tenths of it, rounded down. Otherwise there is neither. A secondary counts only
-- with a known write time before that of the PRIMARY.
pub evaluate_oplog_window_lem :
    (status : RsStatus) (shard : String) (earliest latest : ℕ)
    → latest - earliest < 2 ^ 60
    → let applied = primary_applied status.members in
      let silent = leb latest earliest || is_zero applied in
      let findings = evaluate_oplog_window status shard earliest latest in
      (reports "replication.lag_exceeds_oplog_window" findings
        ≡ (if silent then 0 else count (exceeds (latest - earliest) applied) status.members))
      × (reports "replication.lag_near_oplog_window" findings
          ≡ (if silent then 0 else count (comes_near (latest - earliest) applied) status.members))
unfolding evaluate_oplog_window
evaluate_oplog_window_lem status shard earliest latest h =
    let e : sub_time latest earliest ≡ latest - earliest = ground arith in
    let w =
      reports-window_findings status shard (latest - earliest) (primary_applied status.members)
        status.members h in
    rw e (
      ground (arith, w.0, reports-nil "replication.lag_exceeds_oplog_window"),
      ground (arith, w.1, reports-nil "replication.lag_near_oplog_window"),
    )
