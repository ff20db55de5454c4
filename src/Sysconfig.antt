-- ===== src/Sysconfig.antt =====
-- sysconfig/config.go and sysconfig/runner.go: the names that one server uses, and the runner that
-- hands them to every command; and system_info/provider.go.
pub mod Names
use warden_linux.Base.{ℕ, ◌*◌, ◌%◌, List, [], ◌∷◌, ◌++◌, String, ok, Exec, ◌>>=◌, pure, u64_mod}
use warden_linux.System.{Cmd, Error, System}
use warden_linux.Text.{◌<>◌}

pub record Config : Type 0 where
  pub cgroup_path : String
  pub network_interface_prefix : String
  pub filter_forward_chain : String
  pub filter_default_chain : String
  pub filter_instance_prefix : String
  pub nat_prerouting_chain : String
  pub nat_postrouting_chain : String
  pub nat_instance_prefix : String

-- NewConfig
pub new_config : String → Config
new_config tag = record {
  network_interface_prefix = "w" <> tag <> "";
  cgroup_path = "/tmp/warden-" <> tag <> "/cgroup";
  filter_forward_chain = "w-" <> tag <> "-forward";
  filter_default_chain = "w-" <> tag <> "-default";
  filter_instance_prefix = "w-" <> tag <> "-instance-";
  nat_prerouting_chain = "w-" <> tag <> "-prerouting";
  nat_postrouting_chain = "w-" <> tag <> "-postrouting";
  nat_instance_prefix = "w-" <> tag <> "-instance-";
}

pub environ : Config → List String
environ config =
    ("WARDEN_CGROUP_PATH=" <> config.cgroup_path)
    ∷ ("WARDEN_NETWORK_INTERFACE_PREFIX=" <> config.network_interface_prefix)
    ∷ ("WARDEN_IPTABLES_FILTER_FORWARD_CHAIN=" <> config.filter_forward_chain)
    ∷ ("WARDEN_IPTABLES_FILTER_DEFAULT_CHAIN=" <> config.filter_default_chain)
    ∷ ("WARDEN_IPTABLES_FILTER_INSTANCE_PREFIX=" <> config.filter_instance_prefix)
    ∷ ("WARDEN_IPTABLES_NAT_PREROUTING_CHAIN=" <> config.nat_prerouting_chain)
    ∷ ("WARDEN_IPTABLES_NAT_POSTROUTING_CHAIN=" <> config.nat_postrouting_chain)
    ∷ ("WARDEN_IPTABLES_NAT_INSTANCE_PREFIX=" <> config.nat_instance_prefix)
    ∷ []

-- `os_environ` is os.Environ(), which a command with no environment of its own is given.
pub with_env : List String → List String → Cmd → Cmd
with_env os_environ env cmd = elim cmd.env [
  | [] ↦ record cmd { env = os_environ ++ env }
  | e ∷ es ↦ record cmd { env = (e ∷ es) ++ env }
]

module _ {W : Type 0} (os_environ : List String) (config : Config) where
  -- NewRunner: Run, Start and Background change their commands; the other methods are those of the
  -- runner inside.
  unfoldable pub new_runner : System W → System W
  unfolding with_env environ
  new_runner inner =
      let changed = with_env os_environ (environ config) in
      record inner {
        run = λ cmd. inner.run (changed cmd);
        start = λ cmd. inner.start (changed cmd);
        output = λ cmd. inner.output (changed cmd);
        pipe = λ cmd. inner.pipe (changed cmd);
      }

module _ {W : Type 0} (mem_total disk_total_kbytes : Exec W Error ℕ) where
  pub from_kbytes_to_bytes : ℕ → ℕ
  from_kbytes_to_bytes kbytes = kbytes * 1024 % u64_mod

  -- TotalMemory and TotalDisk, on what sigar reads of the memory and of the depot's file system.
  pub total_memory : Exec W Error ℕ
  total_memory = mem_total

  pub total_disk : Exec W Error ℕ
  unfolding from_kbytes_to_bytes
  total_disk = do total ← disk_total_kbytes; pure (from_kbytes_to_bytes total)
