-- ===== src/Model.antt =====
-- pkg/mongo/model.go: the fields of a replica set's status that the collectors read.
use mongo_overview_tool.Base.{ℕ, String, List, Bool, true, false}
use mongo_overview_tool.Base.Int.{ℤ}

-- An int type: its constants 0 to 9, and any other number.
pub data ReplicaState : Type 0 where
  startup primary secondary recovering startup2 unknown arbiter down rollback shun : ReplicaState
  undefined : ℕ → ReplicaState

-- A time is the count of nanoseconds since the zero time, which is 0.
pub record RsMember : Type 0 where
  pub name : String
  pub health : ℕ
  pub state : ReplicaState
  pub state_str : String
  pub election_date : ℕ
  pub last_applied_wall_time : ℕ
  pub last_heartbeat : ℕ
  pub last_heartbeat_message : String
  pub optime_date : ℕ

pub record RsStatus : Type 0 where
  pub set : String
  pub members : List RsMember
  pub write_majority_count : ℤ

abbrev pub is_primary : ReplicaState → Bool
is_primary primary = true
is_primary _ = false

abbrev pub is_secondary : ReplicaState → Bool
is_secondary secondary = true
is_secondary _ = false
