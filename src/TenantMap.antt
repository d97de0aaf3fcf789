-- ===== src/TenantMap.antt =====
-- server/internal/tenantmap/map.go: the types. The texts of hints are not modelled: a refusal keeps
-- its kind, and a refused list of bindings its problems.
pub mod Parse
pub mod Resolve
use leads_engine.Base.{ℕ, Bool, ◌&&◌, String, ◌==◌, List, [], ◌∷◌, Option}

abbrev pub wildcard_text : String
wildcard_text = "*"

abbrev pub namespace_notify : String
namespace_notify = "notify"

pub record Binding : Type 0 where
  pub source_app : String
  pub source_ns : String
  pub external_tenant : String
  pub target_tenant : String
  pub version : ℕ
  pub basis : String

pub record Sticky : Type 0 where
  pub found : Bool
  pub ambiguous : Bool
  pub target : String
  pub basis : String
  pub version : ℕ

pub record Decision : Type 0 where
  pub source_app : String
  pub source_ns : String
  pub source_tenant : String
  pub target_tenant : String
  pub version : ℕ
  pub basis : String

pub data EntryError : Type 0 where
  no_equals invalid_version version_range empty_target empty_source : EntryError
  wildcard_source source_form invalid_id same_tenant : EntryError

pub data Problem : Type 0 where
  empty_entry : Problem
  bad_entry : EntryError → String → Problem
  duplicate : Binding → Problem
  overlapping : String → Problem

-- `Error`, by its kind.
pub data Refusal : Type 0 where
  lookup_failed conflict target_missing unknown config : Refusal

-- `none` is a database failure; a caller without a lookup is not modelled.
abbrev pub Lookup : Type 0
Lookup = String → Option Bool

unfoldable pub wildcard : Binding → Bool
wildcard b = b.source_app == wildcard_text && b.source_ns == wildcard_text
