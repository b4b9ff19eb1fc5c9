-- ===== src/Contracts/Workloads.antt =====
-- contracts/jobman/v1alpha1/types.go: the workload document. A slice that is nil and one that is empty
-- are the same list: cloneJSON makes both nil. A map is a list of its entries.
pub mod Normal
pub mod Idempotent
pub mod Parts
pub mod Valid
pub mod Distinct
pub mod Seal
pub mod Resealed
use jobman_control.Contracts.Paths.{ParsedUrl}
use jobman_control.Contracts.Json.{Token, Json}
use jobman_control.Prelude.{String, Bool, Option, List, ℤ}

pub record ShellCommand : Type 0 where
  pub capability : String
  pub script : String

pub record Command : Type 0 where
  pub executable : String
  pub args : List String
  pub shell : Option ShellCommand

pub record SecretExposure : Type 0 where
  pub environment : String
  pub file : String

pub record SecretBinding : Type 0 where
  pub name : String
  pub source : String
  pub expose_as : SecretExposure

pub record Environment : Type 0 where
  pub profile : String
  pub values : List (String × String)
  pub secrets : List SecretBinding

pub record Resources : Type 0 where
  pub cpu : ℤ
  pub memory : String
  pub gpu : ℤ
  pub nodes : ℤ
  pub tasks : ℤ
  pub temporary_storage : String
  pub wall_time : String

pub record ContainerRuntime : Type 0 where
  pub image : String
  pub pull_policy : String
  pub network : String

pub record Runtime : Type 0 where
  pub kind : String
  pub container : Option ContainerRuntime

pub record InputArtifact : Type 0 where
  pub name : String
  pub source : String
  pub target : String
  pub checksum : String

pub record OutputArtifact : Type 0 where
  pub name : String
  pub source : String
  pub destination : String
  pub required : Bool

pub record Artifacts : Type 0 where
  pub inputs : List InputArtifact
  pub outputs : List OutputArtifact

pub record RetryPolicy : Type 0 where
  pub max_runs : ℤ
  pub backoff : String

pub record ExecutionPolicy : Type 0 where
  pub run_timeout : String
  pub retry : RetryPolicy
  pub duplicate_risk : String

pub record Requirements : Type 0 where
  pub operating_systems : List String
  pub architectures : List String
  pub capabilities : List String

pub record WorkloadMetadata : Type 0 where
  pub name : String
  pub description : String
  pub labels : List (String × String)
  pub annotations : List (String × String)

pub record WorkloadSpec : Type 0 where
  pub command : Command
  pub working_directory : String
  pub environment : Option Environment
  pub resources : Option Resources
  pub runtime : Runtime
  pub artifacts : Option Artifacts
  pub policy : ExecutionPolicy
  pub requirements : Option Requirements
  pub extensions : List (String × String)

pub record Workload : Type 0 where
  pub api_version : String
  pub kind : String
  pub metadata : WorkloadMetadata
  pub spec : WorkloadSpec

-- What the standard library does for the contracts: time.ParseDuration in nanoseconds, url.Parse, the
-- tokens of a valid UTF-8 text by json.Decoder (none if it is malformed), json.Marshal of a value and of
-- a workload, a workload's copy through its JSON, and SHA-256 in hexadecimal digits.
pub record Host : Type 0 where
  pub parse_duration : String → Option ℤ
  pub parse_url : String → Option ParsedUrl
  pub tokens : String → Option (List Token)
  pub marshal : Json → String
  pub marshal_workload : Workload → Option String
  pub clone_workload : Workload → Option Workload
  pub sha256_hex : String → String
