-- ===== src/Primitives/Metadata.antt =====
-- primitives/src/lib.rs, `ChallengeStatus`, `Pool`, `Progress` and `Metadata`: the record of one
-- challenge game with its methods. Account identifiers are numbers, which are only compared.
use zero_dao_node.Base.{
  ℕ, Bool, true, false, Option, ◌==◌, leb, if◌then◌else◌, checked_add, saturating_add, u32, u128,
}

pub data ChallengeStatus : Type 0 where
  free examine reply evidence arbitral : ChallengeStatus

abbrev pub status_eq : ChallengeStatus → ChallengeStatus → Bool
status_eq ChallengeStatus.free ChallengeStatus.free = true
status_eq ChallengeStatus.examine ChallengeStatus.examine = true
status_eq ChallengeStatus.reply ChallengeStatus.reply = true
status_eq ChallengeStatus.evidence ChallengeStatus.evidence = true
status_eq ChallengeStatus.arbitral ChallengeStatus.arbitral = true
status_eq _ _ = false

-- A pool of funds secured by staking and earnings.
pub record Pool : Type 0 where
  pub staking : ℕ
  pub earnings : ℕ

-- Information on the progress of the breakpoint transfer.
pub record Progress : Type 0 where
  pub total : ℕ
  pub done : ℕ

pub record Metadata : Type 0 where
  pub pool : Pool
  pub joint_benefits : Bool
  pub progress : Progress
  pub last_update : ℕ
  pub remark : ℕ
  pub score : ℕ
  pub pathfinder : ℕ
  pub status : ChallengeStatus
  pub challenger : ℕ

-- `Metadata::default()`, with the default of `ChallengeStatus` and of the account identifier.
abbrev pub default_metadata : Metadata
default_metadata = record {
  pool = record { staking = 0; earnings = 0 };
  joint_benefits = false;
  progress = record { total = 0; done = 0 };
  last_update = 0;
  remark = 0;
  score = 0;
  pathfinder = 0;
  status = ChallengeStatus.examine;
  challenger = 0;
}

abbrev pub total_amount : Metadata → Option ℕ
total_amount m = checked_add u128 m.pool.staking m.pool.earnings

abbrev pub is_all_done : Metadata → Bool
is_all_done m = m.progress.total == m.progress.done

abbrev pub check_progress : Metadata → Bool
check_progress m = leb m.progress.done m.progress.total

abbrev pub is_challenger : Metadata → ℕ → Bool
is_challenger m who = m.challenger == who

abbrev pub is_pathfinder : Metadata → ℕ → Bool
is_pathfinder m who = m.pathfinder == who

abbrev pub new_progress : Metadata → ℕ → Metadata
new_progress m total = record m { progress = record { total = total; done = 0 } }

abbrev pub next : Metadata → ℕ → Metadata
next m count = record m {
  progress = record { total = m.progress.total; done = saturating_add u32 m.progress.done count };
}

abbrev pub set_status : Metadata → ChallengeStatus → Metadata
set_status m status = record m { status = status }

abbrev pub restart : Metadata → Bool → Metadata
restart m full_probative = record m {
  status = ChallengeStatus.free;
  joint_benefits = false;
  pathfinder = if full_probative then m.challenger else m.pathfinder;
}
