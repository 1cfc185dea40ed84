-- ===== src/Genproto.antt =====
-- cmd/genproto/main.go: the bootstrap of the toolchain. The bin directory is the files that the
-- command looks at; the downloads, `go install` and the file system answer by what they are asked.
pub mod Plugins
pub mod Toolchain
pub mod Archive
pub mod Root
use microservice_diagnosis.Prelude.{
  String, ◌<>◌, Bool, true, false, not, ◌&&◌, Option, none, some, List, [], ◌∷◌, ◌++◌, str_eq,
  is_some, if◌then◌else◌,
}
use microservice_diagnosis.Prelude.Dict.{Dict, lookup, insert}

-- `pluginDef`.
pub record PluginDef : Type 0 where
  pub name : String
  pub pkg : String
  pub version : String

abbrev plugin : String → String → String → PluginDef
plugin name pkg version = record { name = name; pkg = pkg; version = version }

abbrev pub plugin_defs : List PluginDef
plugin_defs =
    plugin "protoc-gen-go" "google.golang.org/protobuf/cmd/protoc-gen-go" "v1.36.12"
    ∷ plugin "protoc-gen-go-grpc" "google.golang.org/grpc/cmd/protoc-gen-go-grpc" "v1.6.2"
    ∷ plugin "protoc-gen-grpc-gateway"
        "github.com/grpc-ecosystem/grpc-gateway/v2/protoc-gen-grpc-gateway" "v2.30.0"
    ∷ plugin "protoc-gen-openapiv2" "github.com/grpc-ecosystem/grpc-gateway/v2/protoc-gen-openapiv2"
        "v2.30.0"
    ∷ []

-- The files of ./bin: whether the compiler is unpacked, the executables of the plugins with the
-- version that was installed, and the text of the version markers, by the names of the plugins. The
-- names of an executable and of a marker differ by their suffixes.
pub record Bin : Type 0 where
  pub protoc : Bool
  pub exes : Dict String
  pub markers : Dict String
  -- The arguments of `go install`, and the number of downloads, so far.
  pub installed : List String
  pub downloads : List String

-- What the calls outside answer. The zip is fetched and unpacked; `unpacks` says what protoc.zip of a
-- platform has.
pub record Outside : Type 0 where
  pub makes_dirs : Bool
  pub downloads : String → Bool
  pub unzips : Bool
  -- Whether an unzip that fails has created the compiler's file before.
  pub leaves_protoc : Bool
  pub removes : Bool
  pub chmods : Bool
  pub has_protoc : Bool
  pub installs : String → Bool
  pub writes : String → Bool
  -- strings.TrimSpace.
  pub trim : String → String
  pub goos : String
  pub goarch : String

abbrev arch_of : String → String
arch_of arch =
    if str_eq arch "amd64" then "x86_64" else if str_eq arch "arm64" then "aarch_64" else arch

-- `protocPlatform`.
unfoldable pub protoc_platform : String → String → String
protoc_platform goos goarch =
    if str_eq goos "windows"
    then (if str_eq (arch_of goarch) "x86_64" then "win64" else "win32")
    else if str_eq goos "darwin"
    then "osx-" <> arch_of goarch
    else goos <> ("-" <> arch_of goarch)

abbrev url_of : String → String
url_of platform =
    "https://github.com/protocolbuffers/protobuf/releases/download/v35.1/protoc-35.1-"
    <> (platform <> ".zip")

abbrev downloaded : Outside → Bin → Bin
downloaded o b = record b {
  downloads = b.downloads ++ url_of (protoc_platform o.goos o.goarch) ∷ [];
}

-- What follows the download: unzip, os.Remove of the archive and os.Chmod of the compiler, which fails
-- on a file that the archive did not have.
abbrev unpack : Outside → Bin → Bool × Bin
unpack o b =
    if not o.unzips
    then (false, record b { protoc = o.leaves_protoc })
    else if not o.removes
    then (false, record b { protoc = o.has_protoc })
    else if str_eq o.goos "windows"
    then (true, record b { protoc = o.has_protoc })
    else (o.chmods && o.has_protoc, record b { protoc = o.has_protoc })

-- `ensureProtoc`: whether it returns no error, and the directory.
unfoldable pub ensure_protoc : Outside → Bin → Bool × Bin
unfolding protoc_platform
ensure_protoc o b =
    if b.protoc
    then (true, b)
    else if not o.makes_dirs
    then (false, b)
    else if o.downloads (url_of (protoc_platform o.goos o.goarch))
    then unpack o (downloaded o b)
    else (false, b)

abbrev pub read_file_trim : (String → String) → Option String → String
read_file_trim trim none = ""
read_file_trim trim (some text) = trim text

-- The test that skips a plugin.
abbrev pub is_ready : Outside → PluginDef → Bin → Bool
is_ready o p b =
    is_some (lookup p.name b.exes)
    && str_eq (read_file_trim o.trim (lookup p.name b.markers)) p.version

abbrev pub install_arg : PluginDef → String
install_arg p = p.pkg <> ("@" <> p.version)

-- `go install`, and then the marker.
abbrev pub installed_by : Outside → PluginDef → Bin → Bin
installed_by o p b = record b {
  exes = insert p.name p.version b.exes;
  installed = b.installed ++ install_arg p ∷ [];
}

abbrev pub marked_by : PluginDef → Bin → Bin
marked_by p b = record b { markers = insert p.name p.version b.markers }

abbrev pub install_one : Outside → PluginDef → Bin → Bool × Bin
install_one o p b =
    if not (o.installs (install_arg p))
    then (false, b)
    else if o.writes p.name
    then (true, marked_by p (installed_by o p b))
    else (false, installed_by o p b)

abbrev pub ensure_one : Outside → PluginDef → Bin → Bool × Bin
ensure_one o p b = if is_ready o p b then (true, b) else install_one o p b

-- The loop over the plugins, which an error ends.
unfoldable pub ensure_each : Outside → List PluginDef → Bin → Bool × Bin
ensure_each o [] b = (true, b)
ensure_each o (p ∷ ps) b =
    let rest = ensure_each o ps (ensure_one o p b).1 in
    if (ensure_one o p b).0 then rest else (false, (ensure_one o p b).1)

-- `ensurePlugins`.
unfoldable pub ensure_plugins : Outside → Bin → Bool × Bin
ensure_plugins o b = if o.makes_dirs then ensure_each o plugin_defs b else (false, b)

abbrev pub all_present : List PluginDef → Bin → Bool
all_present [] b = true
all_present (p ∷ ps) b = is_some (lookup p.name b.exes) && all_present ps b

-- `verifyToolchain`.
unfoldable pub verify_toolchain : Bin → Bool
verify_toolchain b = b.protoc && all_present plugin_defs b

-- The part of `main` before generate: whether it goes on.
unfoldable pub bootstrap : Bool → Outside → Bin → Bool × Bin
bootstrap skip o b =
    if skip
    then (verify_toolchain b, b)
    else (let (ready, b') = ensure_protoc o b in if ready then ensure_plugins o b' else (false, b'))
