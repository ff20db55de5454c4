-- ===== src/Container/Run/Options/Examples.antt =====
-- Run of linux_backend/linux_container.go at one process.
use warden_linux.Base.{true, [], ◌∷◌, none, some}
use warden_linux.Container.Run.{ProcessSpec}

abbrev ruby : ProcessSpec
ruby = record {
  path = "ruby";
  args = "-e" ∷ "puts ENV" ∷ [];
  env = "--dir" ∷ "A=b" ∷ [];
  dir = "";
  privileged = true;
  limits = record {
    address_space = none;
    core = none;
    cpu = some 60;
    data_segment = none;
    fsize = none;
    locks = none;
    memlock = none;
    msgqueue = none;
    nice = none;
    nofile = some 1024;
    nproc = none;
    rss = none;
    rtprio = none;
    sigpending = none;
    stack = none;
  };
  tty = none;
}
