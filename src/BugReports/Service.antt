-- ===== src/BugReports/Service.antt =====
-- src/modules/admin/bug-reports/bug-reports.service.ts.
use nestjs_boilerplate.Base.{
  ℕ, Bool, true, false, Option, none, some, List, [], Text, text_eq, codes, or_default, domain,
  pure, throw, or_throw, ◌>>=◌, ◌>>◌,
}
use nestjs_boilerplate.Shared.Pagination.{Paginated, paginate}
use nestjs_boilerplate.Media.{MediaAssetView}
use nestjs_boilerplate.BugReports.{
  BugReport, NewBugReport, BugReportPatch, CreateBugReportDto, UpdateBugReportDto,
  BugReportListFilters, BugReportWithAttachments, BugReportPorts, BugStatus, BugSeverity, medium,
  Method, status_value, severity_value,
}
use nestjs_boilerplate.BugReports.Repository

abbrev pub bug_report_entity_type : Text
bug_report_entity_type = codes "bug_report"

abbrev pub insert_data : ℕ → CreateBugReportDto → NewBugReport
insert_data reporter_id dto = record {
  title = dto.title;
  description = dto.description;
  severity = severity_value (or_default dto.severity medium);
  route = dto.route;
  payload = dto.payload;
  environment = dto.environment;
  entity_type = dto.entity_type;
  entity_id = dto.entity_id;
  reporter_id = some reporter_id;
  assignee_id = dto.assignee_id;
}

abbrev pub patch_of : UpdateBugReportDto → BugReportPatch
patch_of dto = record {
  title = dto.title;
  description = dto.description;
  severity = severity_text dto.severity;
  status = status_text dto.status;
  assignee_id = dto.assignee_id;
  resolution_note = dto.resolution_note;
}
  where
    severity_text : Option BugSeverity → Option Text
    severity_text none = none
    severity_text (some severity) = some (severity_value severity)

    status_text : Option BugStatus → Option Text
    status_text none = none
    status_text (some status) = some (status_value status)

module _ (p : BugReportPorts) where
  unfoldable pub create : ℕ → CreateBugReportDto → Method p BugReport
  create reporter_id dto = Repository.create p (insert_data reporter_id dto)

  unfoldable pub find_all : BugReportListFilters → Method p (Paginated BugReport)
  find_all filters = do
    (rows, total) ← Repository.find_all p filters
    pure (paginate rows total filters.page filters.limit)

  abbrev pub attachments_enabled : Option Text → Bool
  attachments_enabled none = false
  attachments_enabled (some value) = text_eq value (codes "true")

  -- A call of the port to the assets.
  abbrev pub attachments_of : Text → Method p (List MediaAssetView)
  attachments_of id w =
      let (reply, assets) = p.assets.list_by_entity bug_report_entity_type id w.assets in
      (reply, record w { assets = assets })

  abbrev pub not_found : {A : Type 0} → Method p A
  not_found = throw (domain "BUG_REPORT_NOT_FOUND")

  abbrev pub found_or_throw : Option BugReport → Method p BugReport
  found_or_throw row = or_throw row (domain "BUG_REPORT_NOT_FOUND")

  abbrev pub attachments : Text → Method p (List MediaAssetView)
  attachments id w = elim (attachments_enabled p.attachments_enabled) [
    | true ↦ attachments_of id w
    | false ↦ pure [] w
  ]

  unfoldable pub find_by_id : Text → Bool → Method p BugReportWithAttachments
  find_by_id id include_inactive = do
    found ← Repository.find_by_id p id include_inactive
    row ← found_or_throw found
    views ← attachments id
    pure (record { report = row; attachments = views })

  abbrev pub patched : Text → BugReport → BugReportPatch → Method p BugReport
  patched id existing patch w = elim (Repository.is_empty_patch patch) [
    | true ↦ pure existing w
    | false ↦ (Repository.update p id patch >>= found_or_throw) w
  ]

  unfoldable pub update : Text → UpdateBugReportDto → Method p BugReport
  update id dto = do
    found ← Repository.find_by_id p id false
    existing ← found_or_throw found
    patched id existing (patch_of dto)

  abbrev pub deactivated : Text → Bool → BugReport → Method p BugReport
  deactivated id is_active existing w = elim is_active [
    | true ↦ (Repository.soft_delete p id >> pure existing) w
    | false ↦ pure existing w
  ]

  abbrev pub removed : Text → Bool → BugReport → Method p BugReport
  removed id force existing w = elim force [
    | true ↦ (Repository.delete p id >> pure existing) w
    | false ↦ deactivated id existing.is_active existing w
  ]

  unfoldable pub delete : Text → Bool → Method p BugReport
  delete id force = do
    found ← Repository.find_by_id p id true
    existing ← found_or_throw found
    removed id force existing
