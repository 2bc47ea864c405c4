-- ===== src/Plugins/Growth.antt =====
-- src/plugin/PluginRegistry.cpp: registries that keep what they have.
use instrument_script_server.Base.{
  String, true, false, some, lookup, has, lookup-insert, string_key, ◌≡◌, ap, arith, inl, inr,
  Option-cases, is_some,
}
use instrument_script_server.Plugins.{PluginMetadata, PluginRegistry, register}

-- The two maps have the same protocols.
pub record IsValid (r : PluginRegistry) : Type 0 where
  pub same : (protocol : String) → has protocol r.plugins ≡ has protocol r.plugin_paths

-- A registry that has what another had, where that had it.
pub record Grows (r r' : PluginRegistry) : Type 0 where
  pub plugins :
      (protocol : String) (m : PluginMetadata)
      → lookup protocol r.plugins ≡ some m
      → lookup protocol r'.plugins ≡ some m
  pub paths :
      (protocol path : String)
      → has protocol r.plugins ≡ true
      → lookup protocol r.plugin_paths ≡ some path
      → lookup protocol r'.plugin_paths ≡ some path
  pub valid : IsValid r → IsValid r'

pub Grows-refl : (r : PluginRegistry) → Grows r r
Grows-refl r = record {
  plugins = λ protocol m h. h;
  paths = λ protocol path there h. h;
  valid = λ v. v;
}

pub Grows-has :
    (r r' : PluginRegistry) (protocol : String)
    → Grows r r'
    → has protocol r.plugins ≡ true
    → has protocol r'.plugins ≡ true
unfolding has
Grows-has r r' protocol g h = elim (Option-cases (lookup protocol r.plugins)) [
  | inl missing ↦ ground (arith, missing, h)
  | inr (m, found) ↦ ap is_some (g.plugins protocol m found)
]

pub Grows-trans : (r r' r'' : PluginRegistry) → Grows r r' → Grows r' r'' → Grows r r''
Grows-trans r r' r'' g h = record {
  plugins = λ protocol m e. h.plugins protocol m (g.plugins protocol m e);
  paths = λ protocol path there e.
      h.paths protocol path (Grows-has r r' protocol g there) (g.paths protocol path there e);
  valid = λ v. h.valid (g.valid v);
}

pub register-Grows :
    (protocol path : String) (m : PluginMetadata) (r : PluginRegistry)
    → has protocol r.plugins ≡ false
    → Grows r (register protocol path m r)
unfolding register has
register-Grows protocol path m r new = record {
  plugins = λ k n h.
      ground (arith, new, h, lookup-insert protocol k m r.plugins, string_key.eqb_iff protocol k);
  paths = λ k p there h. ground (
    arith,
    new,
    there,
    h,
    lookup-insert protocol k path r.plugin_paths,
    string_key.eqb_iff protocol k,
  );
  valid = λ v. record {
    same = λ k. ground (
      arith,
      v.same k,
      lookup-insert protocol k m r.plugins,
      lookup-insert protocol k path r.plugin_paths,
    );
  };
}
