-- ===== src/StartUp/Stack.antt =====
-- The second half of entrypoint: the new stack, and the shared page for what follows.
use urvirt.Common.{
  ℕ, ◌+◌, ◌-◌, ◌%◌, ◌^◌, ◌≤◌, ◌<◌, ◌≡◌, refl, ◌∙◌, sym, ◌⊎◌, true, if◌then◌else◌, arith, Option,
  none, some, u64,
}
use urvirt.Outcome.{ok}
use urvirt.Memory.{ram_start, ram_size}
use urvirt.Priv.{PrivState}
use urvirt.AddressSpace.{AddressSpace, Backing, IsLawful, IsHole, in_pages, of_file, anonymous}
use urvirt.StartUp.{Process, map_config, mmap, set_up_stack}
use urvirt.StartUp.Config.{map_config-IsHole, backing-map_config, read-map_config}
use urvirt.StartUp.Spec.{IsLoaded, stub_end, in_stub, in_stack}
use urvirt.StartUp.Unmap.{OnlyStub}

-- The shared page's contents, with the stub larger by its stack.
abbrev pub with_stack : PrivState → PrivState
with_stack c = record c { stub_size = c.stub_size + 4096 }

-- The stub and its stack.
abbrev pub stub_view : PrivState → (ℕ → Option Backing) → ℕ → Option Backing
stub_view c before a =
    if in_stub c a then before a else if in_stack c a then some anonymous else none

-- What entrypoint leaves, with the shared page at `conf`.
pub record HasStack (S : AddressSpace) (p r : Process S) (conf : ℕ) : Type 0 where
  pub config : r.config ≡ with_stack p.config
  pub ram : (o : ℕ) → r.ram o ≡ p.ram o
  pub aligned : conf % 4096 ≡ 0
  pub within : conf + 4096 ≤ 2 ^ 38
  pub apart : (conf + 4096 ≤ ram_start) ⊎ (ram_start + ram_size ≤ conf)
  pub hidden :
      (a : ℕ) → in_pages conf 4096 a ≡ true → stub_view p.config (S.backing p.space) a ≡ none
  pub view :
      (a : ℕ)
      → a < 2 ^ 38
      → S.backing r.space a ≡ (
          if in_pages conf 4096 a
          then some (of_file 64 (a - conf))
          else stub_view p.config (S.backing p.space) a)

module _ {S : AddressSpace} (L : IsLawful S) (p : Process S) (room : ℕ) (d : IsLoaded S p room)
    (q : Process S) (o : OnlyStub S p q) where
  abbrev stacked : Process S
  stacked = (mmap q (stub_end p.config) 4096 3 0x20032 (2 ^ 64 - 1) 0).1

  backing-stacked :
      (a : ℕ) → a < 2 ^ 38 → S.backing stacked.space a ≡ stub_view p.config (S.backing p.space) a
  backing-stacked a user = ground (
    arith,
    d.start_aligned,
    d.size_aligned,
    d.below,
    L.map-fixed_lem q.space (stub_end p.config) 4096 0x20032 (2 ^ 64 - 1) 0 a refl,
    d.hospitable.granted q.space 4096 0x20032 (2 ^ 64 - 1) 0,
    o.view a user,
  )

  hole : IsHole S stacked.space 4096 room
  hole = record {
    nonempty = omega arith;
    aligned = d.room_aligned;
    within = omega (arith, d.room_below);
    apart = ground (arith, d.room_ram);
    free = λ a e. ground (arith, backing-stacked a, d.room_below, d.room_free a, d.room_stub);
  }

  set_up_stack-ok :
      set_up_stack (stub_end p.config) q
      ≡ ok (
        (stub_end p.config, (map_config stacked).0),
        record (map_config stacked).1 { config = with_stack p.config },
      )
  unfolding set_up_stack
  set_up_stack-ok =
      rw (read-map_config L d.hospitable refl stacked room hole) (rw (placed, o.config, size) refl)
    where
      placed : (S.map q.space (stub_end p.config) 4096 0x20032 (2 ^ 64 - 1) 0).0 ≡ stub_end p.config
      placed =
          (L.map-fixed_lem q.space (stub_end p.config) 4096 0x20032 (2 ^ 64 - 1) 0 0 refl
            (omega (arith, d.start_aligned, d.size_aligned)) d.below
            (d.hospitable.granted q.space 4096 0x20032 (2 ^ 64 - 1) 0 (omega arith) refl)).0

      size : u64 (p.config.stub_size + 4096) ≡ p.config.stub_size + 4096
      size = omega (arith, d.below)

  -- The second half returns the stack's and the shared page's addresses.
  pub set_up_stack-HasStack :
      (conf : ℕ) × (r : Process S) × (set_up_stack (stub_end p.config) q
        ≡ ok ((stub_end p.config, conf), r))
      × HasStack S p r conf
  set_up_stack-HasStack = (
    (map_config stacked).0,
    record (map_config stacked).1 { config = with_stack p.config },
    set_up_stack-ok,
    record {
      config = refl;
      ram = o.ram;
      aligned = h.aligned;
      within = h.within;
      apart = h.apart;
      hidden = λ a e. sym (backing-stacked a (user a e)) ∙ h.free a e;
      view = λ a u.
          ground (
            arith,
            backing-map_config L d.hospitable refl stacked room hole a,
            backing-stacked a u,
          );
    },
  )
    where
      h : IsHole S stacked.space 4096 (map_config stacked).0
      h = map_config-IsHole L d.hospitable refl stacked room hole

      user : (a : ℕ) → in_pages (map_config stacked).0 4096 a ≡ true → a < 2 ^ 38
      user a e = ground (arith, h.within)
