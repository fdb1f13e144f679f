-- ===== src/Node/Tag.antt =====
-- The state tag read back: which constant of antsd/internal/node/state.go a string is.
use zero_config_ha_cluster.Common.{
  ◌≡◌, refl, Bool, false, List, [], ◌∷◌, Option, none, some, String, str_eq, eq_iff, arith,
  if◌then◌else◌,
}
use zero_config_ha_cluster.Node.State.{
  State, starting, discovering, bootstrap_confirm, bootstrap_waiting, bootstrap_install_init,
  bootstrap_install_server, bootstrap_install_agent, bootstrap_failed, joining_waiting,
  joining_cleanup, joining_agent, joining_failed, rejoin_cluster, rejoin_failed,
  rescale_coordinating, rescale_promoting, rescale_demoting, rescale_failed, stable_server,
  stable_agent, to_string, is_first_boot, in_cluster,
}

-- Every constant of the block.
abbrev pub all_states : List State
all_states =
    starting ∷ discovering ∷ bootstrap_confirm ∷ bootstrap_waiting ∷ bootstrap_install_init
    ∷ bootstrap_install_server ∷ bootstrap_install_agent ∷ bootstrap_failed ∷ joining_waiting
    ∷ joining_cleanup ∷ joining_agent ∷ joining_failed ∷ rejoin_cluster ∷ rejoin_failed
    ∷ rescale_coordinating ∷ rescale_promoting ∷ rescale_demoting ∷ rescale_failed ∷ stable_server
    ∷ stable_agent ∷ []

find_state : List State → String → Option State
find_state [] t = none
find_state (s ∷ ss) t = if str_eq t (to_string s) then some s else find_state ss t

-- `node.State(tag)`, where the string is one of the constants.
unfoldable pub of_string : String → Option State
unfolding find_state to_string
of_string t = find_state all_states t

-- `node.State(tag).InCluster()`.
unfoldable pub tag_in_cluster : String → Bool
tag_in_cluster t = elim (of_string t) [ none ↦ false | some s ↦ in_cluster s ]

-- `node.State(tag).IsFirstBoot()`.
unfoldable pub tag_is_first_boot : String → Bool
tag_is_first_boot t = elim (of_string t) [ none ↦ false | some s ↦ is_first_boot s ]

-- The tag that a node publishes for a state is read back as that state.
pub of_string-to_string : (s : State) → of_string (to_string s) ≡ some s
unfolding of_string find_state to_string
of_string-to_string starting = refl
of_string-to_string _ = refl

find_state-to_string :
    (ss : List State) (t : String) (s : State) → find_state ss t ≡ some s → t ≡ to_string s
unfolding find_state
find_state-to_string [] t s h = ground arith
find_state-to_string (x ∷ ss) t s h =
    ground (arith, eq_iff t (to_string x), find_state-to_string ss t s)

-- No other string is read as that state.
pub to_string-of_string : (t : String) (s : State) → of_string t ≡ some s → t ≡ to_string s
unfolding of_string
to_string-of_string t s h = find_state-to_string all_states t s h

-- No two states share a tag.
pub to_string-injective : (a b : State) → to_string a ≡ to_string b → a ≡ b
to_string-injective a b h = ground (arith, of_string-to_string a, of_string-to_string b)
