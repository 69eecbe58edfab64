-- ===== src/StartUp/Config.antt =====
-- The shared page while it is mapped.
use urvirt.Common.{ℕ, ◌-◌, ◌≡◌, refl, ◌∙◌, Bool, true, if◌then◌else◌, arith, some}
use urvirt.Outcome.{ok}
use urvirt.AddressSpace.{
  AddressSpace, IsLawful, IsHospitable, IsHole, in_pages, of_file, map-IsHole, backing-map,
}
use urvirt.StartUp.{Process, read_config, map_config}

-- What the first page of the file looks like in the address space.
abbrev pub config_at : ℕ → ℕ → Bool
config_at conf a = in_pages conf 4096 a

module _ {S : AddressSpace} where
  pub read_config-ok :
      (p : Process S) (conf : ℕ)
      → S.backing p.space conf ≡ some (of_file 64 0)
      → read_config p conf ≡ ok p.config
  read_config-ok p conf e = rw e refl

module _ {S : AddressSpace} (L : IsLawful S) {open_fds : ℕ → Bool} (H : IsHospitable S open_fds)
    (opened : open_fds 64 ≡ true) (p : Process S) (hole : ℕ) (h : IsHole S p.space 4096 hole) where
  pub map_config-IsHole : IsHole S p.space 4096 (map_config p).0
  map_config-IsHole = map-IsHole L H p.space 4096 1 64 0 hole refl opened h

  pub backing-map_config :
      (a : ℕ)
      → S.backing (map_config p).1.space a ≡ (
          if in_pages (map_config p).0 4096 a
          then some (of_file 64 (a - (map_config p).0))
          else S.backing p.space a)
  backing-map_config a = backing-map L H p.space 4096 1 64 0 hole refl opened h a ∙ ground arith

  pub read-map_config : read_config (map_config p).1 (map_config p).0 ≡ ok p.config
  read-map_config =
      read_config-ok (map_config p).1 (map_config p).0
        (backing-map_config (map_config p).0 ∙ ground arith)
