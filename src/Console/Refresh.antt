-- ===== src/Console/Refresh.antt =====
-- The assertion of `demu_console_refresh` of demu.c, and the end of the refreshes.
use citrix_vgpu.Prelude.{
  ◌⊎◌, ◌-◌, ◌==◌, Bool-cases, if◌then◌else◌, ◌≡◌, ◌<◌, refl, Bool, true, false, Option, none, some,
  List, [], ◌∷◌, ◌>>=◌, arith, inl, inr,
}
use citrix_vgpu.Console.{
  demu_console_start, demu_console_stop, Console, demu_console_refresh, demu_socket_read,
}

-- What the main loop meets
pub data Event : Type 0 where
  tick : Bool → Bool → Event  -- the timer: whether the VGA is shown, whether `timer_settime` works
  packet : Bool → Bool → Event  -- the socket: whether a byte came, whether `timer_settime` works

unfoldable pub step : Event → Console → Option Console
step (tick vga_state timer_ok) c = demu_console_refresh vga_state timer_ok c
step (packet got_byte timer_ok) c = some (demu_socket_read got_byte timer_ok c)

unfoldable pub steps : List Event → Console → Option Console
steps [] c = some c
steps (e ∷ l) c = step e c >>= steps l

-- Every packet that the socket announces is read.
abbrev pub AllRead : List Event → Type 0
AllRead [] = Unit
AllRead (tick v t ∷ l) = AllRead l
AllRead (packet got t ∷ l) = (got ≡ true) × AllRead l

-- An active console has refreshes left.
abbrev pub Counted : Console → Type 0
Counted c = (c.console_active ≡ false) ⊎ (0 < c.scount)

-- The console after a tick that it survives
after_tick : Bool → Bool → Console → Console
after_tick v t c =
    let drawn = if v then record c { full_update = false } else c in
    let counted = record drawn { scount = drawn.scount - 1 } in
    if c.console_active
    then (if counted.scount == 0 then (demu_console_stop t counted).0 else counted)
    else c

demu_console_refresh-after_tick :
    (v t : Bool) (c : Console) → Counted c → demu_console_refresh v t c ≡ some (after_tick v t c)
unfolding demu_console_refresh after_tick
demu_console_refresh-after_tick v t c (inl e) = ground arith
demu_console_refresh-after_tick v t c (inr p) = elim (Bool-cases c.console_active) [
  | inl e ↦ elim (Bool-cases v) [ inl w ↦ ground arith | inr w ↦ ground arith ]
  | inr e ↦ ground arith
]

after_tick-Counted : (v t : Bool) (c : Console) → Counted c → Counted (after_tick v t c)
unfolding after_tick demu_console_stop
after_tick-Counted v t c h = elim (Bool-cases (after_tick v t c).console_active) [
  | inr e ↦ inl e
  | inl e ↦ inr (ground arith)
]

packet-Counted : (t : Bool) (c : Console) → Counted (demu_socket_read true t c)
unfolding demu_socket_read demu_console_start
packet-Counted t c = inr (ground arith)

-- If every datagram that the socket announces gives a byte, the assertion of `demu_console_refresh`
-- never fails, in any order of ticks and datagrams and whether or not the timer can be set.
pub steps-Counted :
    (l : List Event) (c : Console)
    → AllRead l
    → Counted c
    → (c' : Console) × (steps l c ≡ some c') × Counted c'
unfolding steps step
steps-Counted [] c r h = (c, refl, h)
steps-Counted (tick v t ∷ l) c r h =
    let (c', e, h') = steps-Counted l (after_tick v t c) r (after_tick-Counted v t c h) in
    (c', rw (demu_console_refresh-after_tick v t c h) e, h')
steps-Counted (packet got t ∷ l) c (e, r) h =
    rw e (steps-Counted l (demu_socket_read true t c) r (packet-Counted t c))

-- A datagram that gives no byte, such as an empty one, starts an idle console that has no refreshes
-- left, if the timer can be set; the next tick fails the assertion.
pub empty_packet_aborts :
    (v t : Bool) (c : Console)
    → c.console_active ≡ false
    → c.scount ≡ 0
    → steps (packet false true ∷ tick v t ∷ []) c ≡ none
unfolding steps step demu_socket_read demu_console_start demu_console_refresh
empty_packet_aborts v t c e z = elim (Bool-cases v) [ inl w ↦ ground arith | inr w ↦ ground arith ]

-- The ticks of a list of answers
abbrev pub ticks : List (Bool × Bool) → List Event
ticks [] = []
ticks ((v, t) ∷ l) = tick v t ∷ ticks l

idle_after_tick : (v t : Bool) (c : Console) → c.console_active ≡ false → after_tick v t c ≡ c
unfolding after_tick
idle_after_tick v t c e = ground arith
