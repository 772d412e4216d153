-- ===== src/Modules/Catalog/Later.antt =====
-- internal/module/catalog.go: the planned modules of the milestones M15 to M23.
use nett.Prelude.{[], true, false}
use nett.Text.{codes}
use nett.Modules.{Descriptor, status_planned}

abbrev pub graphql_module : Descriptor
graphql_module = record {
  name = codes "graphql";
  short = codes "GraphQL reconnaissance";
  milestone = codes "M15";
  status = status_planned;
  active = true;
  capabilities = [];
}

abbrev pub param_module : Descriptor
param_module = record {
  name = codes "param";
  short = codes "Parameter discovery across URLs/forms/JS/OpenAPI";
  milestone = codes "M15";
  status = status_planned;
  active = false;
  capabilities = [];
}

abbrev pub repo_module : Descriptor
repo_module = record {
  name = codes "repo";
  short = codes "Public repository intelligence";
  milestone = codes "M16";
  status = status_planned;
  active = true;
  capabilities = [];
}

abbrev pub cloud_module : Descriptor
cloud_module = record {
  name = codes "cloud";
  short = codes "Cloud/CDN attribution from DNS/TLS/HTTP signals";
  milestone = codes "M17";
  status = status_planned;
  active = false;
  capabilities = [];
}

abbrev pub classify_module : Descriptor
classify_module = record {
  name = codes "classify";
  short = codes "Asset classification engine";
  milestone = codes "M18";
  status = status_planned;
  active = false;
  capabilities = [];
}

abbrev pub score_module : Descriptor
score_module = record {
  name = codes "score";
  short = codes "Deterministic asset scoring and prioritization";
  milestone = codes "M19";
  status = status_planned;
  active = false;
  capabilities = [];
}

abbrev pub graph_module : Descriptor
graph_module = record {
  name = codes "graph";
  short = codes "Relationship-graph query layer";
  milestone = codes "M20";
  status = status_planned;
  active = false;
  capabilities = [];
}

abbrev pub event_module : Descriptor
event_module = record {
  name = codes "event";
  short = codes "Event bus and pivot scheduler with loop guards";
  milestone = codes "M21";
  status = status_planned;
  active = false;
  capabilities = [];
}

abbrev pub diff_module : Descriptor
diff_module = record {
  name = codes "diff";
  short = codes "Differential reconnaissance between project snapshots";
  milestone = codes "M22";
  status = status_planned;
  active = false;
  capabilities = [];
}

abbrev pub resume_module : Descriptor
resume_module = record {
  name = codes "resume";
  short = codes "Resume/incremental engine over persisted module state";
  milestone = codes "M23";
  status = status_planned;
  active = false;
  capabilities = [];
}
