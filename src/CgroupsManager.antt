-- ===== src/CgroupsManager.antt =====
-- linux_backend/cgroups_manager/container_cgroups_manager.go: a container's cgroup files.
pub mod Trim
use Prim.Native.Char.{code}
use warden_linux.Base.{◌&&◌, String, Exec, ◌>>=◌, pure, [], ◌∷◌, ◌==◌, if◌then◌else◌}
use warden_linux.System.{Error, System}
use warden_linux.Text.{◌<>◌, ◌===◌, path_join}

unfoldable pub subsystem_path : String → String → String → String
subsystem_path cgroups_path id subsystem =
    path_join (cgroups_path ∷ subsystem ∷ ("instance-" <> id) ∷ [])

unfoldable pub file : String → String → String → String → String
unfolding subsystem_path
file cgroups_path id subsystem name =
    path_join (subsystem_path cgroups_path id subsystem ∷ name ∷ [])

abbrev pub memory_file : String → String → String → String
memory_file cgroups_path id name = file cgroups_path id "memory" name

-- strings.Trim(s, "\n")
pub trim_left : String → String
trim_left String.[] = String.[]
trim_left (String.◌∷◌ c s) = if code c == 10 then trim_left s else String.◌∷◌ c s

pub trim_right : String → String
trim_right String.[] = String.[]
trim_right (String.◌∷◌ c s) =
    let rest = trim_right s in if code c == 10 && rest === "" then String.[] else String.◌∷◌ c rest

pub trim_newlines : String → String
unfolding trim_left trim_right
trim_newlines s = trim_right (trim_left s)

module _ {W : Type 0} (sys : System W) (cgroups_path id : String) where
  unfoldable pub set : String → String → String → Exec W Error (Unit {0})
  set subsystem name value = sys.write_file (file cgroups_path id subsystem name) value

  unfoldable pub get : String → String → Exec W Error String
  unfolding trim_newlines
  get subsystem name = do
    body ← sys.read_file (file cgroups_path id subsystem name)
    pure (trim_newlines body)
