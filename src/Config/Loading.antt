-- ===== src/Config/Loading.antt =====
-- What antsd/internal/config/config.go guarantees about the parameters that it returns.
use zero_config_ha_cluster.Common.{
  ◌≤◌, ◌≡◌, ◌≢◌, refl, sym, subst, ◌↔◌, ◌⊎◌, inl, inr, true, false, ◌&&◌, Option, none, some,
  String, str_eq, str_eq-false, ℤ, pos, negsuc, le_ℕ, arith, Option-cases, Bool-cases, eq_iff,
}
use zero_config_ha_cluster.Node.Role.{role_of_string}
use zero_config_ha_cluster.Config.Precedence.{AreChosen, gather-AreChosen}
use zero_config_ha_cluster.Config.NodeName.{validate_node_name}
use zero_config_ha_cluster.Config.Settings.{
  Config, Parsers, Environment, Flags, out_of_range, validate_fake_role, validate_rest,
  validate_config, gather, ConfigError, derived_name, derived_name_err, ready, no_derived_name,
  rejected, load_config,
}

-- A port number of TCP and UDP, and a positive duration.
abbrev pub IsPort : ℤ → Type 0
IsPort (pos n) = (1 ≤ n) × (n ≤ 65535)
IsPort (negsuc n) = ⊥

abbrev pub IsPositive : ℤ → Type 0
IsPositive (pos n) = 1 ≤ n
IsPositive (negsuc n) = ⊥

-- What the program relies on.
pub record IsValid (p : Parsers) (c : Config) : Type 0 where
  pub name : validate_node_name c.node_name ≡ none
  pub addr : p.is_ip c.serf_bind_addr ≡ true
  pub serf_port : IsPort c.serf_bind_port
  pub admin_port : IsPort c.http_port
  pub state_file : c.state_file_path ≢ ""
  -- The real installer has a token and no pretended role; the fake one pretends none, or one of two.
  pub installer :
      ((c.k3s_installer ≡ "exec") × (c.k3s_token ≢ "") × (c.k3s_fake_installed_role ≡ ""))
      ⊎ ((c.k3s_installer ≡ "fake")
          × ((c.k3s_fake_installed_role ≡ "")
              ⊎ ((c.k3s_fake_installed_role ≡ "server") ⊎ (c.k3s_fake_installed_role ≡ "agent"))))
  pub grace : IsPositive c.eviction_grace
  pub settle : IsPositive c.rescale_settle_delay

out_of_range_sound : (z : ℤ) → out_of_range z ≡ false → IsPort z
unfolding out_of_range
out_of_range_sound (pos n) h = ground arith
out_of_range_sound (negsuc n) h = absurd (ground arith)

le_ℕ_sound : (z : ℤ) → le_ℕ z 0 ≡ false → IsPositive z
le_ℕ_sound (pos n) h = ground arith
le_ℕ_sound (negsuc n) h = absurd (ground arith)

-- Two texts that the test tells apart, and one that it takes for the other.
differ : (s t : String) → str_eq s t ≡ false → s ≢ t
differ s t h e = absurd (ground (arith, (eq_iff s t).1 e))

same : (s t : String) → str_eq s t ≡ true → s ≡ t
same s t h = (eq_iff s t).0 h

exec_is_not_fake : (s : String) → str_eq s "exec" ≡ true → str_eq s "fake" ≡ false
exec_is_not_fake s h = subst (λ t. str_eq t "fake" ≡ false) (sym (same s "exec" h)) refl

installer_sound :
    (p : Parsers) (c : Config)
    → validate_rest p c ≡ none
    → ((c.k3s_installer ≡ "exec") × (c.k3s_token ≢ "") × (c.k3s_fake_installed_role ≡ ""))
      ⊎ ((c.k3s_installer ≡ "fake")
          × ((c.k3s_fake_installed_role ≡ "")
              ⊎ ((c.k3s_fake_installed_role ≡ "server") ⊎ (c.k3s_fake_installed_role ≡ "agent"))))
unfolding validate_rest validate_fake_role role_of_string
installer_sound p c h = elim (Bool-cases (str_eq c.k3s_installer "exec")) [
  | inl e ↦ inl (
    same c.k3s_installer "exec" e,
    differ c.k3s_token "" (ground arith),
    same c.k3s_fake_installed_role "" (ground (arith, exec_is_not_fake c.k3s_installer e)),
  )
  | inr e ↦ inr (
    same c.k3s_installer "fake" (ground arith),
    elim (Bool-cases (str_eq c.k3s_fake_installed_role "")) [
      | inl z ↦ inl (same c.k3s_fake_installed_role "" z)
      | inr z ↦ elim (Bool-cases (str_eq c.k3s_fake_installed_role "server")) [
        | inl r ↦ inr (inl (same c.k3s_fake_installed_role "server" r))
        | inr r ↦ inr (inr (same c.k3s_fake_installed_role "agent" (ground arith)))
      ]
    ],
  )
]

rest_sound :
    (p : Parsers) (c : Config)
    → validate_node_name c.node_name ≡ none
    → validate_rest p c ≡ none
    → IsValid p c
unfolding validate_rest validate_fake_role role_of_string
rest_sound p c n h = record {
  name = n;
  addr = ground arith;
  serf_port = out_of_range_sound c.serf_bind_port (ground arith);
  admin_port = out_of_range_sound c.http_port (ground arith);
  state_file = differ c.state_file_path "" (ground arith);
  installer = installer_sound p c h;
  grace = le_ℕ_sound c.eviction_grace (ground arith);
  settle = le_ℕ_sound c.rescale_settle_delay (ground arith);
}

validate_config_sound : (p : Parsers) (c : Config) → validate_config p c ≡ none → IsValid p c
unfolding validate_config
validate_config_sound p c h = elim (Option-cases (validate_node_name c.node_name)) [
  | inl n ↦ rest_sound p c n (ground arith)
  | inr (e, n) ↦ absurd (ground arith)
]

out_of_range_complete : (z : ℤ) → IsPort z → out_of_range z ≡ false
unfolding out_of_range
out_of_range_complete (pos n) (l, u) = ground arith
out_of_range_complete (negsuc n) h = absurd h

le_ℕ_complete : (z : ℤ) → IsPositive z → le_ℕ z 0 ≡ false
le_ℕ_complete (pos n) h = ground arith
le_ℕ_complete (negsuc n) h = absurd h

same_complete : (s t : String) → s ≡ t → str_eq s t ≡ true
same_complete s t e = (eq_iff s t).1 e

validate_config_complete : (p : Parsers) (c : Config) → IsValid p c → validate_config p c ≡ none
unfolding validate_config validate_rest validate_fake_role role_of_string
validate_config_complete p c v =
    let a = out_of_range_complete c.serf_bind_port v.serf_port in
    let b = out_of_range_complete c.http_port v.admin_port in
    let f = str_eq-false c.state_file_path "" v.state_file in
    let g = le_ℕ_complete c.eviction_grace v.grace in
    let s = le_ℕ_complete c.rescale_settle_delay v.settle in
    elim v.installer [
      | inl (i, t, r) ↦
          let x = same_complete c.k3s_installer "exec" i in
          let y = str_eq-false c.k3s_token "" t in
          let z = same_complete c.k3s_fake_installed_role "" r in ground (arith, v.name, v.addr)
      | inr (i, r) ↦
          let x = same_complete c.k3s_installer "fake" i in
          let w = exec_is_not_fake c.k3s_installer in
          elim r [
            | inl q ↦
                let z = same_complete c.k3s_fake_installed_role "" q in
                ground (arith, v.name, v.addr, w)
            | inr (inl q) ↦
                let z = same_complete c.k3s_fake_installed_role "server" q in
                ground (arith, v.name, v.addr, w)
            | inr (inr q) ↦
                let z = same_complete c.k3s_fake_installed_role "agent" q in
                ground (arith, v.name, v.addr, w)
          ]
    ]

-- `validate` reports no error exactly for a valid configuration: a valid name, an IP address, ports
-- of 1 to 65535, a state file, positive durations, and the real installer with a token and no
-- pretended role, or the fake one with no pretended role, "server" or "agent".
pub validate_config-none_iff :
    (p : Parsers) (c : Config) → (validate_config p c ≡ none) ↔ IsValid p c
validate_config-none_iff p c = (validate_config_sound p c, validate_config_complete p c)

missing-none : (derived : Option String) → derived_name_err derived ≡ true → derived ≡ none
missing-none none h = refl
missing-none (some x) h = absurd (ground arith)

pub load_config-cases :
    (p : Parsers) (env : Environment) (flags : Flags) (derived : Option String)
    → let c = gather p env flags (derived_name derived) in
      ((load_config p env flags derived ≡ ready c) × IsValid p c)
      ⊎ (((load_config p env flags derived ≡ no_derived_name)
            × (derived ≡ none)
            × (c.node_name ≡ ""))
          ⊎ ((e : ConfigError) × (load_config p env flags derived ≡ rejected e)
              × (validate_config p c ≡ some e)))
unfolding load_config
load_config-cases p env flags derived =
    let c = gather p env flags (derived_name derived) in
    elim (Bool-cases (str_eq c.node_name "" && derived_name_err derived)) [
      | inl m ↦ inr (
          inl
            (ground arith, missing-none derived (ground arith), same c.node_name "" (ground arith)))
      | inr m ↦ elim (Option-cases (validate_config p c)) [
        | inl v ↦ inl (ground arith, validate_config_sound p c v)
        | inr (e, v) ↦ inr (inr (e, ground arith, v))
      ]
    ]

-- There is a configuration, each of its twelve parameters taken from the flag that is given, or else
-- from the variable of the environment that is set and can be parsed, or else from the default, such
-- that `Load` either returns it, and it is valid; or returns an error, as the machine has no derived
-- name and none is given either; or as that configuration is not valid.
pub load_config-outcome :
    (p : Parsers) (env : Environment) (flags : Flags) (derived : Option String)
    → (c : Config) × AreChosen p env flags (derived_name derived) c
      × (((load_config p env flags derived ≡ ready c) × IsValid p c)
          ⊎ (((load_config p env flags derived ≡ no_derived_name)
                × (derived ≡ none)
                × (c.node_name ≡ ""))
              ⊎ ((e : ConfigError) × (load_config p env flags derived ≡ rejected e)
                  × (¬ IsValid p c))))
load_config-outcome p env flags derived =
    let c = gather p env flags (derived_name derived) in
    (
      c,
      gather-AreChosen p env flags (derived_name derived),
      elim (load_config-cases p env flags derived) [
        | inl x ↦ inl x
        | inr (inl x) ↦ inr (inl x)
        | inr (inr (e, r, v)) ↦ inr (inr (e, r, λ w. cc (v, validate_config_complete p c w)))
      ],
    )
