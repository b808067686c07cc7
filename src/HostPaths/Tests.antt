-- ===== src/HostPaths/Tests.antt =====
-- The theorem about the resolved paths at a concrete file system: the server lies in the root.
use cross_language_lan_chatr.Prelude.{
  ◌≡◌, refl, true, Option, none, some, Bytes, codes, same, ◌++◌, [], ◌∷◌,
}
use cross_language_lan_chatr.HostPaths.{
  System, available, resolve_host_paths, resolve_host_paths-available, paths_for_root,
  legacy_paths_for_root, existing_file,
}

abbrev up_of : Bytes → Option Bytes
up_of [] = none
up_of (c ∷ cs) = some []

abbrev checkout : System
checkout = record {
  exists = λ p. same p (codes "/server-go/chat-server.exe");
  is_file = λ p. true;
  absolute_file = λ p. p;
  absolute_folder = λ p. p;
  clean = λ p. p;
  join = λ d p. d ++ (codes "/" ++ p);
  folder = λ p. [];
  complete_base_name = λ p. p;
  parent = up_of;
  trimmed = λ p. p;
  test_data_root = [];
  generic_data = codes "/data";
}

resolve_host_paths-available_example :
    available checkout (resolve_host_paths checkout (codes "/out")) ≡ true
unfolding available existing_file paths_for_root legacy_paths_for_root same
resolve_host_paths-available_example = resolve_host_paths-available checkout (codes "/out") refl
