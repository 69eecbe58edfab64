-- ===== src/StartUp/Unmap.antt =====
-- The first half of entrypoint: everything but the stub is unmapped.
use urvirt.Common.{ℕ, ◌+◌, ◌-◌, ◌^◌, ◌<◌, ◌≡◌, refl, ltb, if◌then◌else◌, arith, none, sub64, u64}
use urvirt.Outcome.{ok}
use urvirt.AddressSpace.{AddressSpace, IsLawful, IsHole, in_pages}
use urvirt.StartUp.{Process, map_config, munmap, unmap_others}
use urvirt.StartUp.Config.{map_config-IsHole, backing-map_config, read-map_config}
use urvirt.StartUp.Spec.{IsLoaded, stub_end, in_stub}

-- What the first half leaves.
pub record OnlyStub (S : AddressSpace) (p q : Process S) : Type 0 where
  pub config : q.config ≡ p.config
  pub ram : (o : ℕ) → q.ram o ≡ p.ram o
  pub view :
      (a : ℕ)
      → a < 2 ^ 38
      → S.backing q.space a ≡ (if in_stub p.config a then S.backing p.space a else none)

module _ {S : AddressSpace} (L : IsLawful S) (p : Process S) (room : ℕ)
    (d : IsLoaded S p room) where
  first_hole : IsHole S p.space 4096 room
  first_hole = record {
    nonempty = omega arith;
    aligned = d.room_aligned;
    within = omega (arith, d.room_below);
    apart = ground (arith, d.room_ram);
    free = λ a e. d.room_free a (ground arith);
  }

  abbrev below_stub : Process S
  below_stub = munmap (munmap (map_config p).1 0 p.config.stub_start) (map_config p).0 4096

  backing-below_stub :
      (a : ℕ)
      → S.backing below_stub.space a ≡ (
          if in_pages (map_config p).0 4096 a
          then none
          else if ltb a p.config.stub_start
          then none
          else S.backing p.space a)
  backing-below_stub a = ground (
    arith,
    d.start_aligned,
    d.below,
    h.aligned,
    h.within,
    L.unmap_lem (S.unmap (map_config p).1.space 0 p.config.stub_start) (map_config p).0 4096 a,
    L.unmap_lem (map_config p).1.space 0 p.config.stub_start a,
    backing-map_config L d.hospitable refl p room first_hole a,
  )
    where
      h : IsHole S p.space 4096 (map_config p).0
      h = map_config-IsHole L d.hospitable refl p room first_hole

  second_hole : IsHole S below_stub.space 4096 room
  second_hole = record {
    nonempty = omega arith;
    aligned = d.room_aligned;
    within = omega (arith, d.room_below);
    apart = ground (arith, d.room_ram);
    free = λ a e. ground (arith, backing-below_stub a, d.room_free a);
  }

  abbrev only_stub : Process S
  only_stub =
      munmap (munmap (map_config below_stub).1 (stub_end p.config) (2 ^ 38 - stub_end p.config))
        (map_config below_stub).0 4096

  backing-only_stub :
      (a : ℕ)
      → a < 2 ^ 38
      → S.backing only_stub.space a ≡ (if in_stub p.config a then S.backing p.space a else none)
  backing-only_stub a user = ground (
    arith,
    d.start_aligned,
    d.size_aligned,
    d.below,
    h1.free a,
    h2.aligned,
    h2.within,
    h2.free a,
    L.unmap_lem
        (S.unmap (map_config below_stub).1.space (stub_end p.config) (2 ^ 38 - stub_end p.config))
        (map_config below_stub).0 4096 a,
    L.unmap_lem (map_config below_stub).1.space (stub_end p.config) (2 ^ 38 - stub_end p.config) a,
    backing-map_config L d.hospitable refl below_stub room second_hole a,
    backing-below_stub a,
  )
    where
      h1 : IsHole S p.space 4096 (map_config p).0
      h1 = map_config-IsHole L d.hospitable refl p room first_hole

      h2 : IsHole S below_stub.space 4096 (map_config below_stub).0
      h2 = map_config-IsHole L d.hospitable refl below_stub room second_hole

  unmap_others-ok : unmap_others p ≡ ok (stub_end p.config, only_stub)
  unfolding unmap_others
  unmap_others-ok =
      rw
        (
          read-map_config L d.hospitable refl p room first_hole,
          read-map_config L d.hospitable refl below_stub room second_hole,
          whole,
          rest,
        )
        refl
    where
      whole : u64 (p.config.stub_start + p.config.stub_size) ≡ stub_end p.config
      whole = omega (arith, d.below)

      rest : sub64 (2 ^ 38) (stub_end p.config) ≡ 2 ^ 38 - stub_end p.config
      rest = omega (arith, d.below)

  -- The first half returns, at the end of the stub, and only the stub is mapped.
  pub unmap_others-OnlyStub :
      (q : Process S) × (unmap_others p ≡ ok (stub_end p.config, q)) × OnlyStub S p q
  unmap_others-OnlyStub = (
    only_stub,
    unmap_others-ok,
    record { config = refl; ram = λ o. refl; view = backing-only_stub },
  )
