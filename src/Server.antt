-- ===== src/Server.antt =====
-- internal/server/server.go: the parts of the HTTP server that decide. A request is what the handlers
-- read of it, an answer the status with what is encoded behind it, and the stores are passed along.
pub mod Access
pub mod Logs
pub mod JobCalls
pub mod JobList
pub mod Stats
pub mod Presets
mod Granting
mod Retrying
mod Following
mod Counting
mod Selecting
mod Vetting
mod Examples
mod PresetExamples
use cartolensia.Prelude.{ℕ, Bool, List, String, Text}
use cartolensia.Failure.{Failure}
use cartolensia.Jobs.{Job, LogLine}
use cartolensia.Queue.{JobMap}
use cartolensia.Auth.{AuthError}
use cartolensia.Auth.Store.{AuthStore}

pub data Method : Type 0 where
  get_method post_method other_method : Method

-- What stands behind a status.
pub data Body : Type 0 where
  page_not_found method_not_allowed retry_refused : Body
  refusal : AuthError → Body
  failure_body : Failure → Body
  job_body : Job → Body
  logs_body : List LogLine → ℕ → Body

pub record Answer : Type 0 where
  pub status : ℕ
  pub body : Body

-- The stores that the handlers of jobs reach.
pub record Site : Type 0 where
  pub accounts : AuthStore
  pub jobs : JobMap
