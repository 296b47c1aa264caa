-- ===== src/Server/Web/Http.antt =====
-- server/web: the requests that the handlers read and the responses that they write. A page is its
-- template's name with the data that the template is given.
use tiny_file_watcher.Prelude.{ℕ, String, Option, List, []}
use tiny_file_watcher.Server.Outcome.{Code}
use tiny_file_watcher.Server.Watcher.Service.{WatcherMessage, SyncWatcherResponse}
use tiny_file_watcher.Server.Flush.Service.{PendingFile}
use tiny_file_watcher.Server.Redirection.{RedirectionMessage}
use tiny_file_watcher.Server.Machine.{MachineResponse}
use tiny_file_watcher.Server.Web.Upload.{Form}

pub data Method : Type 0 where
  get head post other_method : Method

pub record Request : Type 0 where
  pub method : Method
  -- the texts between the slashes of the path, after its first slash
  pub path : List String
  pub cookie : String → Option String
  -- the query's value, the empty string if there is none
  pub query : String → String
  -- the values of the form, if it can be parsed
  pub form : Option (String → String)
  -- the form with files, if it can be parsed within 64 MB
  pub multipart : Option Form
  pub now : ℕ
  pub random_token : String

-- a cookie that lives for some seconds, or that is deleted at once
pub data MaxAge : Type 0 where
  seconds : ℕ → MaxAge
  expired : MaxAge

pub record Cookie : Type 0 where
  pub name : String
  pub value : String
  pub path : String
  pub max_age : MaxAge

-- the message above the form of a machine
pub data FormError : Type 0 where
  no_error invalid_form missing_fields : FormError
  create_failed : Code → FormError

-- dashboardData, watcherListData, watcherDetailData, machineListData and machineDetailData
pub data PageData : Type 0 where
  no_data : PageData
  dashboard : (total pending : ℕ) → PageData
  watcher_list : List WatcherMessage → PageData
  watcher_detail : WatcherMessage → Option RedirectionMessage → List PendingFile → PageData
  machine_list : List MachineResponse → FormError → PageData
  machine_detail : MachineResponse → List WatcherMessage → PageData

-- the end of a response: a page; syncResultPartial; other HTML; the names of uploaded files;
-- http.Redirect with StatusFound and with StatusSeeOther; the header HX-Redirect; http.Error, or
-- HTML with the status of an error
pub data Reply : Type 0 where
  page : String → PageData → Reply
  sync_result : String → SyncWatcherResponse → Reply
  html : String → Reply
  uploaded : List String → Reply
  redirect see_other hx_redirect : String → Reply
  error : ℕ → Reply

pub record Response : Type 0 where
  pub cookies : List Cookie
  pub reply : Reply

abbrev pub plain : Reply → Response
plain r = record { cookies = []; reply = r }
