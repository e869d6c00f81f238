-- ===== src/Console/Args.antt =====
-- `parse_args` of both programs. The argument iterator is the list of what is left; a text that no
-- flag claims ends the parsing with `none`, as does a flag at the end that wants a value.
pub mod Laws
use simple_remote.Base.{
  Bool, true, false, Option, none, some, List, [], ◌∷◌, bytes_eq, codes, if◌then◌else◌,
}
use simple_remote.Base.Text.{Str}
use simple_remote.Host.Register.{is_host_id}

-- `Args` of the host
pub record HostArgs : Type 0 where
  pub server : Str
  pub name : Str
  pub once : Bool

-- The variables of the host's loop
pub record HostFlags : Type 0 where
  pub server : Option Str
  pub name : Str
  pub once : Bool

abbrev pub host_defaults : HostFlags
host_defaults = record { server = none; name = codes "host"; once = false }

-- A flag that takes a value
unfoldable pub set_host_flag : Str → Str → HostFlags → Option HostFlags
set_host_flag flag value f =
    if bytes_eq flag (codes "--server")
    then some (record f { server = some value })
    else if bytes_eq flag (codes "--name")
    then some (record f { name = value })
    else none

unfoldable pub host_flags : HostFlags → List Str → Option HostFlags
host_flags f [] = some f
host_flags f (arg ∷ []) =
    if bytes_eq arg (codes "--once") then some (record f { once = true }) else none
host_flags f (arg ∷ value ∷ more) = elim (bytes_eq arg (codes "--once")) [
  | true ↦ host_flags (record f { once = true }) (value ∷ more)
  | false ↦ elim (set_host_flag arg value f) [ none ↦ none | some g ↦ host_flags g more ]
]

unfoldable pub parse_host_args : List Str → Option HostArgs
parse_host_args args = elim (host_flags host_defaults args) [
  | none ↦ none
  | some f ↦ elim f.server [
    | none ↦ none
    | some server ↦ some (record { server = server; name = f.name; once = f.once })
  ]
]

-- `Args` of the viewer
pub record ViewerArgs : Type 0 where
  pub server : Str
  pub id : Str
  pub code : Str
  pub name : Str

pub record ViewerFlags : Type 0 where
  pub server : Option Str
  pub id : Option Str
  pub code : Option Str
  pub name : Str

abbrev pub viewer_defaults : ViewerFlags
viewer_defaults = record { server = none; id = none; code = none; name = codes "viewer" }

unfoldable pub set_viewer_flag : Str → Str → ViewerFlags → Option ViewerFlags
set_viewer_flag flag value f =
    if bytes_eq flag (codes "--server")
    then some (record f { server = some value })
    else if bytes_eq flag (codes "--id")
    then some (record f { id = some value })
    else if bytes_eq flag (codes "--code")
    then some (record f { code = some value })
    else if bytes_eq flag (codes "--name")
    then some (record f { name = value })
    else none

unfoldable pub viewer_flags : ViewerFlags → List Str → Option ViewerFlags
viewer_flags f [] = some f
viewer_flags f (arg ∷ []) = none
viewer_flags f (arg ∷ value ∷ more) = elim (set_viewer_flag arg value f) [
  | none ↦ none
  | some g ↦ viewer_flags g more
]

-- The end of `parse_args`: the id must be one, and the three flags must be there.
unfoldable pub viewer_args : ViewerFlags → Option ViewerArgs
viewer_args f = elim f.id [
  | none ↦ none
  | some id ↦
      if is_host_id id
      then elim f.server [
        | none ↦ none
        | some server ↦ elim f.code [
          | none ↦ none
          | some code ↦ some (record { server = server; id = id; code = code; name = f.name })
        ]
      ]
      else none
]

unfoldable pub parse_viewer_args : List Str → Option ViewerArgs
parse_viewer_args args = elim (viewer_flags viewer_defaults args) [
  | none ↦ none
  | some f ↦ viewer_args f
]
