-- ===== src/Container/Streams/Named.antt =====
-- What the commands of StreamIn and StreamOut name, as linux_backend/src/wsh/wsh.c and tar read them.
use warden_linux.Base.{◌≡◌, refl, false, List, [], ◌∷◌, String, some, none}
use warden_linux.Container.Run.Options.{Wsh, parsed, getopt, no_options, is_option}
use warden_linux.Container.Run.{sock_path}
use warden_linux.Container.Streams.{vcap_cmd, stream_out_cmd, working_dir, compress_arg}
use warden_linux.Container.{Container}
use warden_linux.Text.Paths.{
  ends_slash, is_empty, NoSlash, dir-entry, base-entry, ends_slash-entry, ends_slash-append,
}
use warden_linux.Text.{◌<>◌}

abbrev pub as_vcap : Container → Wsh
as_vcap c = record {
  socket_path = some (sock_path c);
  user = some "vcap";
  dir = none;
  environment_variables = [];
}

abbrev tar_cmd : String → String → List String
tar_cmd d b = "tar" ∷ "cf" ∷ "-" ∷ "-C" ∷ d ∷ b ∷ []

getopt-tar :
    (c : Container) (d b : String)
    → getopt no_options (vcap_cmd c (tar_cmd d b)).args ≡ parsed (as_vcap c) (tar_cmd d b)
unfolding vcap_cmd getopt is_option
getopt-tar c d b = refl

-- StreamOut of an entry of a directory: wsh runs tar as vcap in the container, in that directory and
-- on that entry; and for a path that ends with a slash, in the directory and on all of it. The name has no slash, and the directory's path does not end with one.
pub getopt-stream_out :
    (c : Container) (d b : String)
    → NoSlash b
    → is_empty b ≡ false
    → is_empty d ≡ false
    → ends_slash d ≡ false
    → (getopt no_options (stream_out_cmd c (d <> "/" <> b)).args
        ≡ parsed (as_vcap c) ("tar" ∷ "cf" ∷ "-" ∷ "-C" ∷ d ∷ b ∷ []))
      × (getopt no_options (stream_out_cmd c (d <> "/")).args
          ≡ parsed (as_vcap c) ("tar" ∷ "cf" ∷ "-" ∷ "-C" ∷ (d <> "/") ∷ "." ∷ []))
unfolding stream_out_cmd working_dir compress_arg
getopt-stream_out c d b n some_name some_dir h = (
  rw
      (
        ends_slash-entry b n some_name d,
        dir-entry b n some_name d h some_dir,
        base-entry b n some_name d,
      )
      (getopt-tar c d b),
  rw (ends_slash-append d "/" refl) (getopt-tar c (d <> "/") "."),
)
