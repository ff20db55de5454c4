-- ===== src/Container/Streams.antt =====
-- StreamIn and StreamOut of linux_backend/linux_container.go: the commands that they run, whose input
-- and output is the stream.
pub mod Named
use warden_linux.Base.{List, [], ◌∷◌, String, if◌then◌else◌, Exec}
use warden_linux.Container.Run.{sock_path}
use warden_linux.Container.{Container}
use warden_linux.System.{Cmd, Error, System}
use warden_linux.Text.Paths.{dir, base, ends_slash}
use warden_linux.Text.{◌<>◌, path_join}

-- A command that wsh runs in the container as the user vcap.
unfoldable pub vcap_cmd : Container → List String → Cmd
vcap_cmd c command = record {
  path = path_join (c.path ∷ "bin" ∷ "wsh" ∷ []);
  args = "--socket" ∷ sock_path c ∷ "--user" ∷ "vcap" ∷ command;
  env = [];
}

unfoldable pub stream_in_cmd : Container → String → Cmd
unfolding vcap_cmd
stream_in_cmd c dst_path =
    vcap_cmd c ("bash" ∷ "-c" ∷ ("mkdir -p " <> dst_path <> " && tar xf - -C " <> dst_path) ∷ [])

-- The directory that tar works in, and what it reads there.
unfoldable pub working_dir : String → String
working_dir src_path = if ends_slash src_path then src_path else dir src_path

unfoldable pub compress_arg : String → String
compress_arg src_path = if ends_slash src_path then "." else base src_path

unfoldable pub stream_out_cmd : Container → String → Cmd
unfolding vcap_cmd working_dir compress_arg
stream_out_cmd c src_path =
    vcap_cmd c ("tar" ∷ "cf" ∷ "-" ∷ "-C" ∷ working_dir src_path ∷ compress_arg src_path ∷ [])

-- `background` is Background of the command runner.
module _ {W : Type 0} (sys : System W) (background : Cmd → Exec W Error (Unit {0})) where
  pub stream_in : Container → String → Exec W Error (Unit {0})
  stream_in c dst_path = sys.run (stream_in_cmd c dst_path)

  -- The reading end of a pipe comes back, which is closed when the command has ended.
  pub stream_out : Container → String → Exec W Error (Unit {0})
  stream_out c src_path = background (stream_out_cmd c src_path)
