-- ===== src/Stores.antt =====
-- web/src/lib: the stores that live in the page, and the `localStorage` that outlives it.
pub mod Auth
pub mod Preferences
pub mod Watch
use forgequeue.Common.{Bool, Option, List, Text}

pub data Permission : Type 0 where
  system_read queues_read queues_write jobs_read jobs_write workers_read : Permission
  dlq_read dlq_write delayed_read delayed_write metrics_read : Permission

pub record SessionUser : Type 0 where
  pub username : Text
  pub roles : List Text
  pub permissions : List Permission

pub record Session : Type 0 where
  pub token : Text
  pub expires_at : Text
  pub user : SessionUser

pub data ThemePref : Type 0 where
  light dark system : ThemePref

pub data AutoRefresh : Type 0 where
  off five_s ten_s thirty_s : AutoRefresh

pub data Density : Type 0 where
  compact comfortable : Density

pub record Prefs : Type 0 where
  pub theme : ThemePref
  pub auto_refresh : AutoRefresh
  pub density : Density
  pub relative_time : Bool
  pub api_base : Text

-- `Partial<Prefs>`
pub record PrefsPatch : Type 0 where
  pub theme : Option ThemePref
  pub auto_refresh : Option AutoRefresh
  pub density : Option Density
  pub relative_time : Option Bool
  pub api_base : Option Text

-- What `getItem` gives, and `JSON.parse` makes of it. A value that parses has the type to which the
-- source casts it; `foreign` is one that has none of the fields, such as `null`.
pub data Item (A : Type 0) : Type 0 where
  absent blank malformed foreign : Item A
  stored : A → Item A

pub data StorageKey : Type 0 where
  session_key prefs_key theme_key : StorageKey

-- `readable` is false where the browser denies the page its storage, so that every call throws;
-- `accepts` is false where `setItem` throws, as at the quota.
pub record LocalStorage : Type 0 where
  pub readable : Bool
  pub accepts : StorageKey → Bool
  pub session : Item Session
  pub prefs : Item PrefsPatch
  pub theme : Item ThemePref
