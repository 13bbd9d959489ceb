-- ===== src/Serial/Counted.antt =====
-- The count of a discovery and its list, whatever a device sends.
use aura_old.Base.{
  ℕ, ◌+◌, ◌-◌, ◌≡◌, sym, ap, ◌∙◌, Bool, none, some, some-injective, bind-some, List, [], ◌∷◌, arith,
  length, length-append, ◌==◌, drop, Bool-cases, inl, inr,
}
use aura_old.Base.Int.{pos, negsuc}
use aura_old.Chunk.{Malloc, Chunk, append, allocate, store}
use aura_old.ListHead.{ListHead}
use aura_old.Loop.{Wait, timeout, failed, event, loop_once}
use aura_old.Async.{Xfer, got, on_readable, enqueue_chunk, xfer_handler}
use aura_old.Urpc.Object.{Object}
use aura_old.Serial.{
  Serial, wait_start, discovery_init, magic_start, magic_stop, expect_int, handle_data,
  xfer_handler_packets, xfer_handler_discovery_init, get_packet, get_object, next_packet, next_byte,
  number_to_int, parse_object, wait_state, start_discovery,
}
use aura_old.Serial.Events.{LineEvent, brings, room, line_handler, line_waits}

module _ (lists : ListHead Chunk) (objects : ListHead Object) (m : Malloc) (little : Bool) where
  open objects use {entries, add_tail, entries-add_tail}

  -- The list has grown by as many objects as the count.
  abbrev pub Grown : Serial lists objects → Serial lists objects → Type 0
  Grown nl nl' =
      length (entries nl'.objlist) + nl.objcount ≡ length (entries nl.objlist) + nl'.objcount

  next_packet-Grown :
      (nl nl' : Serial lists objects) (x x' : Xfer lists)
      → next_packet lists objects nl x ≡ some (nl', x')
      → Grown nl nl'
  next_packet-Grown nl nl' x x' e =
      let (x1, ready, done) = bind-some (next_byte lists objects x) _ (nl', x') e in
      let same : record nl { rxstate = wait_start } ≡ nl' =
        ap (λ (p : Serial lists objects × Xfer lists). p.0) (some-injective _ _ done) in
      ap (λ (s : Serial lists objects). length (entries s.objlist) + nl.objcount) (sym same)
      ∙ ap (λ (s : Serial lists objects). length (entries nl.objlist) + s.objcount) same

  get_object-Grown :
      (n : ℕ) (c : Chunk) (nl nl' : Serial lists objects) (x x' : Xfer lists)
      → get_object lists objects m n c nl x ≡ some (nl', x')
      → Grown nl nl'
  get_object-Grown n c nl nl' x x' e = elim (Bool-cases (n == 1)) [
    | inl one ↦ next_packet-Grown (record nl { state = nl.state + 1 }) nl' x x' (rw one at e)
    | inr more ↦
        let (o, parsed, added) =
          bind-some
            (elim nl.sz_sz [ pos k ↦ parse_object m (drop (1 + k) c.bytes) | negsuc k ↦ none ]) _
            (nl', x') (rw more at e) in
        let nl1 : Serial lists objects = record nl {
          objlist = add_tail o nl.objlist;
          objcount = nl.objcount + 1;
        } in
        let one_more : length (entries nl1.objlist) ≡ length (entries nl.objlist) + 1 =
          ap length (entries-add_tail o nl.objlist) ∙ length-append (entries nl.objlist) (o ∷ []) in
        omega (arith, one_more, next_packet-Grown nl1 nl' x x' added)
  ]

  get_packet-Grown :
      (nl nl' : Serial lists objects) (x x' : Xfer lists)
      → get_packet lists objects m little nl x ≡ some (nl', x')
      → Grown nl nl'
  unfolding get_packet
  get_packet-Grown nl nl' x x' e = elim (Bool-cases (nl.state == 0)) [
    | inl zero_state ↦
        let (c, here, on) = bind-some x.recv _ (nl', x') (rw zero_state at e) in
        let (n, sized, last) =
          bind-some (number_to_int little (drop 1 c.bytes) nl.sz_sz) _ (nl', x') on in
        get_object-Grown n c nl nl' x x' last
    | inr later ↦ next_packet-Grown (record nl { state = nl.state + 1 }) nl' x x' (rw later at e)
  ]

  handle_data-Grown :
      (nl nl' : Serial lists objects) (x x' : Xfer lists)
      → handle_data lists objects m little nl x ≡ some (nl', x')
      → Grown nl nl'
  unfolding handle_data xfer_handler_packets xfer_handler_discovery_init
  handle_data-Grown nl nl' x x' e = ground (arith, get_packet-Grown nl nl' x x')

  on_readable-Grown :
      (bytes : List ℕ) (nl nl' : Serial lists objects) (x x' : Xfer lists)
      → on_readable lists (handle_data lists objects m little) (got bytes) nl x ≡ some (nl', x')
      → Grown nl nl'
  unfolding on_readable
  on_readable-Grown bytes nl nl' x x' e =
      let (c, here, on) = bind-some x.recv _ (nl', x') e in
      let (c', stored, last) = bind-some (append c bytes) _ (nl', x') on in
      ground (
        arith,
        handle_data-Grown nl nl'
            (record x { recv = some c'; expect_bytes = x.expect_bytes - length bytes }) x',
      )

  module _ (ctl : Bool) where
    line_handler-Grown :
        (ev : LineEvent) (nl nl' : Serial lists objects) (x x' : Xfer lists)
        → line_handler lists objects m little ctl ev (nl, x) ≡ some (nl', x')
        → Grown nl nl'
    unfolding line_handler xfer_handler
    line_handler-Grown (brings w bytes) nl nl' x x' e =
        ground (arith, on_readable-Grown bytes nl nl' x x')
    line_handler-Grown (room q) nl nl' x x' e = ground arith

    loop_once-Grown :
        (w : Wait LineEvent) (nl nl' : Serial lists objects) (x x' : Xfer lists)
        → loop_once (line_handler lists objects m little ctl) w (nl, x) ≡ some (nl', x')
        → Grown nl nl'
    unfolding loop_once
    loop_once-Grown timeout nl nl' x x' e = ground arith
    loop_once-Grown failed nl nl' x x' e = ground arith
    loop_once-Grown (event ev) nl nl' x x' e = line_handler-Grown ev nl nl' x x' e

    line_waits-Grown :
        (ws : List (Wait LineEvent)) (over : Bool) (nl nl' : Serial lists objects)
        (x x' : Xfer lists)
        → line_waits lists objects m little ctl ws (nl, x) ≡ some (over, nl', x')
        → Grown nl nl'
    unfolding wait_state
    line_waits-Grown [] over nl nl' x x' e = ground arith
    line_waits-Grown (w ∷ ws) over nl nl' x x' e = elim (Bool-cases (nl.state == 0)) [
      | inr on ↦ ground arith
      | inl going ↦
          let ((nl1, x1), step, later) =
            bind-some (loop_once (line_handler lists objects m little ctl) w (nl, x)) _
              (over, nl', x') (rw going at e) in
          omega (
            arith,
            loop_once-Grown w nl nl1 x x1 step,
            line_waits-Grown ws over nl1 nl' x1 x' later,
          )
    ]

    start_discovery-count :
        (malloc_ok : Bool) (s nl0 : Serial lists objects) (x x0 : Xfer lists)
        → start_discovery lists objects m ctl malloc_ok s x ≡ some (nl0, x0)
        → (nl0.objcount ≡ 0) × (nl0.objlist ≡ s.objlist)
    unfolding start_discovery
    start_discovery-count malloc_ok s nl0 x x0 e =
        let (c, made, on) = bind-some (allocate m 4) _ (nl0, x0) e in
        let (c', stored, on') =
          bind-some (store c 0 (magic_start ∷ 0 ∷ 0 ∷ magic_stop ∷ [])) _ (nl0, x0) on in
        let x1 = (enqueue_chunk lists ctl malloc_ok x (record c' { size = 4 })).0 in
        let (x2, ready, done) = bind-some (expect_int lists objects m x1 (pos 1)) _ (nl0, x0) on' in
        let same : record s {
          objcount = 0;
          rxstate = wait_start;
          handler = discovery_init;
          state = 0;
        }
            ≡ nl0 =
          ap (λ (p : Serial lists objects × Xfer lists). p.0) (some-injective _ _ done) in
        (
          ap (λ (t : Serial lists objects). t.objcount) (sym same),
          ap (λ (t : Serial lists objects). t.objlist) (sym same),
        )

    -- Whatever a device sends, discovery counts what it finds: where the instance's list is
    -- empty and after the request of `urpc_serial_discovery` any events of the line, with any
    -- bytes and any room, and with any answers of the allocator, bring its wait to a state
    -- without a fault, whether the wait is then over or not, the count is the number of the
    -- objects on the list.
    pub discovery-count :
        (malloc_ok : Bool) (s nl0 nl' : Serial lists objects) (x x0 x' : Xfer lists) (over : Bool)
        (ws : List (Wait LineEvent))
        → entries s.objlist ≡ []
        → start_discovery lists objects m ctl malloc_ok s x ≡ some (nl0, x0)
        → line_waits lists objects m little ctl ws (nl0, x0) ≡ some (over, nl', x')
        → nl'.objcount ≡ length (entries nl'.objlist)
    discovery-count malloc_ok s nl0 nl' x x0 x' over ws first started ended =
        let (zero_count, same) = start_discovery-count malloc_ok s nl0 x x0 started in
        let none_yet : length (entries nl0.objlist) ≡ 0 =
          ap (λ h. length (entries h)) same ∙ ap length first in
        omega (arith, line_waits-Grown ws over nl0 nl' x0 x' ended, zero_count, none_yet)
