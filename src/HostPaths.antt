-- ===== src/HostPaths.antt =====
-- Where the window finds the server that it hosts: client-cpp/gui/src/host_path_resolver.hpp and
-- .cpp. What Qt knows of files, paths and the environment is the parameter `System`.
mod Tests
use cross_language_lan_chatr.Prelude.{
  ℕ, zero, suc, ◌≡◌, refl, Bool, true, false, not, ◌&&◌, ◌||◌, Option, none, some, List, [], ◌∷◌,
  ◌++◌, if◌then◌else◌, is_empty, Bytes, codes, Bool-cases, Option-cases, inl, inr,
}

-- `join` is `QDir::filePath`, `folder` is `QFileInfo::dir`, `parent` is `QDir::cdUp`.
pub record System : Type 0 where
  pub exists : Bytes → Bool
  pub is_file : Bytes → Bool
  pub absolute_file : Bytes → Bytes
  pub absolute_folder : Bytes → Bytes
  pub clean : Bytes → Bytes
  pub join : Bytes → Bytes → Bytes
  pub folder : Bytes → Bytes
  pub complete_base_name : Bytes → Bytes
  pub parent : Bytes → Option Bytes
  pub trimmed : Bytes → Bytes
  pub test_data_root : Bytes
  pub generic_data : Bytes

pub record HostPaths : Type 0 where
  pub server_exe : Bytes
  pub cert_file : Bytes
  pub key_file : Bytes
  pub db_file : Bytes

module _ (s : System) where
  -- An empty path stands for no file.
  unfoldable pub existing_file : Bytes → Bytes
  existing_file path = if s.exists path && s.is_file path then s.absolute_file path else []

  unfoldable pub legacy_paths_for_root : Bytes → HostPaths
  legacy_paths_for_root root = record {
    server_exe = s.clean (s.join root (codes "server-go/chat-server.exe"));
    cert_file = s.clean (s.join root (codes "server-go/certs/server-lan.crt"));
    key_file = s.clean (s.join root (codes "server-go/certs/server-lan.key"));
    db_file = s.clean (s.join root (codes "server-go/chat.db"));
  }

  unfoldable pub protected_host_data_root : Bytes
  protected_host_data_root =
      if not (is_empty (s.trimmed s.test_data_root))
      then s.clean (s.trimmed s.test_data_root)
      else s.clean (s.join s.generic_data (codes "DUSK1NG/LAN Chat/host"))

  abbrev pub paths_in : HostPaths → Bytes → HostPaths
  paths_in legacy data_directory = record {
    server_exe = legacy.server_exe;
    cert_file = s.clean (s.join data_directory (codes "certs/server-lan.crt"));
    key_file = s.clean (s.join data_directory (codes "certs/server-lan.key"));
    db_file = s.clean (s.join data_directory (codes "chat.db"));
  }

  unfoldable pub paths_for_root : Bytes → HostPaths
  paths_for_root root =
      let legacy = legacy_paths_for_root root in
      if not (is_empty (s.trimmed s.test_data_root))
      then paths_in legacy (s.clean (s.trimmed s.test_data_root))
      else if s.exists legacy.cert_file || s.exists legacy.key_file || s.exists legacy.db_file
      then legacy
      else paths_in legacy protected_host_data_root

  unfoldable pub available : HostPaths → Bool
  available paths = not (is_empty (existing_file paths.server_exe))

  -- The loop over the folder and those above it; `fallback` is what follows it.
  unfoldable pub search_up : ℕ → Bytes → HostPaths → HostPaths
  search_up zero root fallback = fallback
  search_up (suc depth) root fallback =
      let candidate = paths_for_root (s.absolute_folder root) in
      if not (is_empty (existing_file candidate.server_exe))
      then candidate
      else elim (s.parent root) [ none ↦ fallback | some up ↦ search_up depth up fallback ]

  unfoldable pub resolve_host_paths : Bytes → HostPaths
  resolve_host_paths application_directory =
      search_up 8 (s.clean application_directory) (paths_for_root (s.clean application_directory))

  abbrev pub beside_certificate : Bytes → List Bytes
  beside_certificate cert_file =
      (if not (is_empty (s.complete_base_name cert_file))
        then s.join (s.folder cert_file) (s.complete_base_name cert_file ++ codes ".key") ∷ []
        else [])
      ++ s.join (s.folder cert_file) (codes "server-lan.key") ∷ []

  abbrev pub beside_server : Bytes → List Bytes
  beside_server server_exe =
      s.join (s.folder server_exe) (codes "certs/server-lan.key")
      ∷ s.join (s.folder server_exe) (codes "server-lan.key")
      ∷ []

  unfoldable pub first_existing : List Bytes → Bytes
  first_existing [] = []
  first_existing (path ∷ paths) =
      let rest = first_existing paths in
      if not (is_empty (existing_file path)) then existing_file path else rest

  unfoldable pub find_private_key_path : Bytes → Bytes → Bytes
  find_private_key_path server_exe cert_file = first_existing (
      (if not (is_empty (s.trimmed cert_file))
        then beside_certificate (s.trimmed cert_file)
        else [])
      ++ (if not (is_empty (s.trimmed server_exe))
          then beside_server (s.trimmed server_exe)
          else []))

  -- The server of some folder, at most as many steps up as stated, exists.
  abbrev pub some_server : ℕ → Bytes → Bool
  some_server zero root = false
  some_server (suc depth) root =
      available (paths_for_root (s.absolute_folder root))
      || elim (s.parent root) [ none ↦ false | some up ↦ some_server depth up ]

  search_up-available :
      (depth : ℕ) (root : Bytes) (fallback : HostPaths)
      → some_server depth root ≡ true
      → available (search_up depth root fallback) ≡ true
  unfolding search_up available
  search_up-available zero root fallback h = absurd (cc h)
  search_up-available (suc depth) root fallback h =
      elim (Bool-cases
        (not (is_empty (existing_file (paths_for_root (s.absolute_folder root)).server_exe)))) [
          | inl here ↦ rw here here
          | inr missing ↦ elim (Option-cases (s.parent root)) [
            | inl top ↦ absurd (cc (rw (missing, top) at h))
            | inr (up, above) ↦
                rw (missing, above)
                  (search_up-available depth up fallback (rw (missing, above) at h))
          ]
        ]

  -- If the server exists under the application's folder or one of the seven folders above it, the
  -- paths that are resolved are those of a server that exists.
  pub resolve_host_paths-available :
      (application_directory : Bytes)
      → some_server 8 (s.clean application_directory) ≡ true
      → available (resolve_host_paths application_directory) ≡ true
  unfolding resolve_host_paths
  resolve_host_paths-available application_directory h =
      search_up-available 8 (s.clean application_directory)
        (paths_for_root (s.clean application_directory)) h
