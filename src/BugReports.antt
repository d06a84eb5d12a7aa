-- ===== src/BugReports.antt =====
-- src/modules/admin/bug-reports: the types of interfaces/, enums/ and dto/, with the row of
-- src/modules/shared/database/schema/bug-report.schema.ts.
pub mod Repository
pub mod Service
pub mod Search
pub mod Deletion
mod Tests
use nestjs_boilerplate.Base.{ℕ, Bool, Option, List, Text, codes, Action, ◌≡◌, true}
use nestjs_boilerplate.Shared.Table.{Table}
use nestjs_boilerplate.Media.{MediaAssetView, AssetPort}

pub data BugStatus : Type 0 where
  open_ in_progress resolved wont_fix : BugStatus

pub data BugSeverity : Type 0 where
  low medium high critical : BugSeverity

-- The values that the columns hold.
abbrev pub status_value : BugStatus → Text
status_value open_ = codes "open"
status_value in_progress = codes "in_progress"
status_value resolved = codes "resolved"
status_value wont_fix = codes "wont_fix"

abbrev pub severity_value : BugSeverity → Text
severity_value low = codes "low"
severity_value medium = codes "medium"
severity_value high = codes "high"
severity_value critical = codes "critical"

-- An id is a UUID in its canonical spelling; a payload is JSON, given by its text.
pub record BugReport : Type 0 where
  pub id : Text
  pub title : Text
  pub description : Text
  pub severity : Text
  pub status : Text
  pub route : Option Text
  pub payload : Option Text
  pub environment : Option Text
  pub entity_type : Option Text
  pub entity_id : Option Text
  pub reporter_id : Option ℕ
  pub assignee_id : Option ℕ
  pub resolution_note : Option Text
  pub is_active : Bool
  pub created_at : ℕ
  pub updated_at : ℕ

pub record NewBugReport : Type 0 where
  pub title : Text
  pub description : Text
  pub severity : Text
  pub route : Option Text
  pub payload : Option Text
  pub environment : Option Text
  pub entity_type : Option Text
  pub entity_id : Option Text
  pub reporter_id : Option ℕ
  pub assignee_id : Option ℕ

-- `Partial<NewBugReport>` with the keys that an update sets; `some none` is null.
pub record BugReportPatch : Type 0 where
  pub title : Option Text
  pub description : Option Text
  pub severity : Option Text
  pub status : Option Text
  pub assignee_id : Option (Option ℕ)
  pub resolution_note : Option Text

pub record CreateBugReportDto : Type 0 where
  pub title : Text
  pub description : Text
  pub severity : Option BugSeverity
  pub route : Option Text
  pub payload : Option Text
  pub environment : Option Text
  pub entity_type : Option Text
  pub entity_id : Option Text
  pub assignee_id : Option ℕ

pub record UpdateBugReportDto : Type 0 where
  pub title : Option Text
  pub description : Option Text
  pub severity : Option BugSeverity
  pub status : Option BugStatus
  pub assignee_id : Option (Option ℕ)
  pub resolution_note : Option Text

pub record BugReportListFilters : Type 0 where
  pub page : ℕ
  pub limit : ℕ
  pub search : Option Text
  pub status : Option BugStatus
  pub severity : Option BugSeverity
  pub entity_type : Option Text
  pub entity_id : Option Text
  pub reporter_id : Option ℕ
  pub assignee_id : Option ℕ
  pub include_inactive : Bool

pub record BugReportWithAttachments : Type 0 where
  pub report : BugReport
  pub attachments : List MediaAssetView

-- `ilike` is the operator of the database, the text first.
pub record BugReportPorts : Type 1 where
  pub table : Table BugReport NewBugReport
  pub ilike : Text → Text → Bool
  pub assets : AssetPort
  pub attachments_enabled : Option Text

module _ (p : BugReportPorts) where
  pub record World : Type 0 where
    pub db : p.table.Db
    pub moment : ℕ
    pub assets : p.assets.State

module _ (p : BugReportPorts) where
  abbrev pub Method : Type 0 → Type 0
  Method A = Action (World p) A
