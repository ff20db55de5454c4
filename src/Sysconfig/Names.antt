-- ===== src/Sysconfig/Names.antt =====
-- The names of sysconfig/config.go for servers with different tags.
pub mod Examples
use text.Mathlib.TextLemmas.{append_cancel_left, append_cancel_right}
use warden_linux.Base.{◌≡◌, ◌≢◌, refl, List, [], ◌∷◌, String}
use warden_linux.Sysconfig.{new_config, environ}
use warden_linux.Text.{◌<>◌}

-- Entry by entry, two environments of the same length differ.
abbrev pub Differ : List String → List String → Type 0
Differ [] [] = Unit {0}
Differ (e ∷ es) (f ∷ fs) = (e ≢ f) × Differ es fs
Differ _ _ = ⊥

entry-ne :
    (name before tag other after : String)
    → tag ≢ other
    → (name <> before <> tag <> after) ≢ (name <> before <> other <> after)
entry-ne name before tag other after ne e = ne (
    append_cancel_right tag other after (
      append_cancel_left before (tag <> after) (other <> after)
        (append_cancel_left name (before <> tag <> after) (before <> other <> after) e)))

-- Servers with different tags hand different names to their commands: every variable of the
-- environment has another value for the one than for the other, so that they share no cgroup, no
-- interface prefix, no chain and no prefix of chains.
pub environ-Differ :
    (tag other : String)
    → tag ≢ other
    → Differ (environ (new_config tag)) (environ (new_config other))
unfolding environ new_config
environ-Differ tag other ne = (
  entry-ne "WARDEN_CGROUP_PATH=" "/tmp/warden-" tag other "/cgroup" ne,
  (
    entry-ne "WARDEN_NETWORK_INTERFACE_PREFIX=" "w" tag other "" ne,
    (
      entry-ne "WARDEN_IPTABLES_FILTER_FORWARD_CHAIN=" "w-" tag other "-forward" ne,
      (
        entry-ne "WARDEN_IPTABLES_FILTER_DEFAULT_CHAIN=" "w-" tag other "-default" ne,
        (
          entry-ne "WARDEN_IPTABLES_FILTER_INSTANCE_PREFIX=" "w-" tag other "-instance-" ne,
          (
            entry-ne "WARDEN_IPTABLES_NAT_PREROUTING_CHAIN=" "w-" tag other "-prerouting" ne,
            (
              entry-ne "WARDEN_IPTABLES_NAT_POSTROUTING_CHAIN=" "w-" tag other "-postrouting" ne,
              (entry-ne "WARDEN_IPTABLES_NAT_INSTANCE_PREFIX=" "w-" tag other "-instance-" ne, tt),
            ),
          ),
        ),
      ),
    ),
  ),
)
