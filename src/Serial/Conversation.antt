-- ===== src/Serial/Conversation.antt =====
-- The receiver of serial.c against what the device's bytes mean: every sequence of items, read in any
-- pieces, leaves the transport with that meaning.
pub mod Ends
use aura_old.Base.{
  ℕ, ◌+◌, ◌-◌, ◌≤◌, ◌<◌, ◌≡◌, ◌≢◌, refl, sym, ap, ◌∙◌, Bool, true, false, Option, none, some, List,
  [], ◌∷◌, ◌++◌, All, arith, length, ◌==◌, ==_refl, if◌then◌else◌, ◌>>=◌, Option-cases, Bool-cases,
  inl, inr, append_assoc,
}
use mathlib.Core.Path.{ap₂}
use aura_old.Base.Int.{pos}
use aura_old.Chunk.{Malloc, Chunk}
use aura_old.ListHead.{ListHead}
use aura_old.Async.{Xfer, got, on_readable}
use aura_old.Async.Receive.{receive}
use aura_old.Urpc.Object.{Object}
use aura_old.Serial.{get_len, get_body, magic_start, Serial, handle_data}
use aura_old.Serial.Receive.{IsIdle, reads, receive-garbage}
use aura_old.Serial.Objects.{receive-object, receive-last}
use aura_old.Serial.Answers.{receive-answer}
use aura_old.Serial.Wire.{
  Item, garbage, object, end_mark, IsItem, item_reads, all_reads, body, announced, View, meaning,
  meanings,
}

module _ (lists : ListHead Chunk) (objects : ListHead Object) (m : Malloc) (little : Bool) where
  open objects use {entries, entries-add_tail}

  -- Reads, one EPOLLIN event each.
  unfoldable pub run_reads :
      List (List ℕ) → Serial lists objects → Xfer lists → Option (Serial lists objects × Xfer lists)
  run_reads [] nl x = some (nl, x)
  run_reads (bytes ∷ more) nl x = do
    (nl', x') ← on_readable lists (handle_data lists objects m little) (got bytes) nl x
    run_reads more nl' x'

  pub run_reads-reads :
      (parts : List (List ℕ)) (last : List ℕ) (rest : List (List ℕ)) (nl nl' : Serial lists objects)
      (x x' : Xfer lists)
      → reads lists objects m little parts last nl x ≡ some (nl', x')
      → run_reads (parts ++ (last ∷ rest)) nl x ≡ run_reads rest nl' x'
  unfolding run_reads receive
  run_reads-reads [] last rest nl nl' x x' e = rw e refl
  run_reads-reads (bytes ∷ more) last rest nl nl' x x' e =
      elim (Option-cases
        (on_readable lists (handle_data lists objects m little) (got bytes) nl x)) [
          | inl stuck ↦ absurd (ground arith)
          | inr ((nl1, x1), step) ↦
              rw step (run_reads-reads more last rest nl1 nl' x1 x' (rw step at e))
        ]

  abbrev pub view : Serial lists objects → View
  view nl = record { packets = nl.state; count = nl.objcount; found = entries nl.objlist }

  -- What one item does to a transport between two packets.
  abbrev Means : Item → Serial lists objects → Xfer lists → Chunk → Type 0
  Means i nl x c =
      (nl' : Serial lists objects) × (x' : Xfer lists) × (c' : Chunk) × ((rest : List (List ℕ))
        → run_reads (item_reads i ++ rest) nl x ≡ run_reads rest nl' x')
      × IsIdle lists objects m little nl' x' c'
      × (nl'.sz_sz ≡ pos 1)
      × (nl'.id_sz ≡ nl.id_sz)
      × (c'.alloc ≡ c.alloc)
      × (view nl' ≡ meaning i (view nl))

  IsIdle-same :
      (nl nl' : Serial lists objects) (x : Xfer lists) (c : Chunk)
      → nl'.rxstate ≡ nl.rxstate
      → nl'.handler ≡ nl.handler
      → IsIdle lists objects m little nl x c
      → IsIdle lists objects m little nl' x c
  IsIdle-same nl nl' x c r h idle = record {
    receiver = idle.receiver;
    valid = idle.valid;
    empty = idle.empty;
    room = idle.room;
    one = idle.one;
    waiting = r ∙ idle.waiting;
    handler = h ∙ idle.handler;
  }

  -- Three reads of a packet, put together.
  packet_reads :
      (n : ℕ) (parts : List (List ℕ)) (last : List ℕ) (rest : List (List ℕ))
      (nl nl1 nl2 nl3 : Serial lists objects) (x x1 x2 x3 : Xfer lists)
      → reads lists objects m little [] (magic_start ∷ []) nl x ≡ some (nl1, x1)
      → reads lists objects m little [] (n ∷ []) nl1 x1 ≡ some (nl2, x2)
      → reads lists objects m little parts last nl2 x2 ≡ some (nl3, x3)
      → run_reads ((magic_start ∷ []) ∷ (n ∷ []) ∷ ((parts ++ (last ∷ [])) ++ rest)) nl x
        ≡ run_reads rest nl3 x3
  packet_reads n parts last rest nl nl1 nl2 nl3 x x1 x2 x3 e1 e2 e3 =
      run_reads-reads [] (magic_start ∷ []) _ nl nl1 x x1 e1
      ∙ run_reads-reads [] (n ∷ []) _ nl1 nl2 x1 x2 e2
      ∙ ap (λ bs. run_reads bs nl2 x2) (append_assoc parts (last ∷ []) rest)
      ∙ run_reads-reads parts last rest nl2 nl3 x2 x3 e3

  module _ (grants : (n : ℕ) → m.grant n ≡ true) (struct : m.grant_struct ≡ true) where
    item-Means :
        (i : Item) (nl : Serial lists objects) (x : Xfer lists) (c : Chunk)
        → IsIdle lists objects m little nl x c
        → nl.sz_sz ≡ pos 1
        → IsItem c.alloc i
        → Means i nl x c
    unfolding meaning
    item-Means (garbage b) nl x c idle sized ok =
        let (c', run, idle', alloc) = receive-garbage lists objects m little nl x c b idle ok in
        (
          nl,
          record x { recv = some c' },
          c',
          λ rest. run_reads-reads [] (b ∷ []) rest nl nl x (record x { recv = some c' }) run,
          idle',
          sized,
          refl,
          alloc,
          refl,
        )
    item-Means (object a parts last) nl x c idle sized
          (whole, some_left, byte, fits, text_name, text_args, text_reply) =
        elim (Bool-cases (nl.state == 0)) [
          | inl early ↦
              let (nl1, nl2, x1, x2, x3, c3, run1, run2, run3, idle3, alloc3) =
                receive-object lists objects m little nl x c (length (body a)) a.flags a.id a.name
                  a.args a.reply a.rest parts last idle sized (ground arith) grants struct text_name
                  text_args text_reply whole refl some_left byte fits in
              let nl' : Serial lists objects = record nl {
                objlist = objects.add_tail (announced a) nl.objlist;
                objcount = nl.objcount + 1;
              } in
              (
                nl',
                x3,
                c3,
                λ rest.
                    packet_reads (length (body a)) parts last rest nl nl1 nl2 nl' x x1 x2 x3 run1
                      run2 run3,
                IsIdle-same nl nl' x3 c3 refl refl idle3,
                sized,
                refl,
                alloc3,
                rw (early, entries-add_tail (announced a) nl.objlist) refl,
              )
          | inr late ↦
              let (nl1, nl2, x1, x2, x3, c3, run1, run2, run3, idle3, alloc3) =
                receive-answer lists objects m little nl x c (length (body a)) parts last idle sized
                  (ground arith) (ap length whole) some_left byte fits in
              let nl' : Serial lists objects = record nl { state = nl.state + 1 } in
              (
                nl',
                x3,
                c3,
                λ rest.
                    packet_reads (length (body a)) parts last rest nl nl1 nl2 nl' x x1 x2 x3 run1
                      run2 run3,
                idle3,
                sized,
                refl,
                alloc3,
                rw late refl,
              )
        ]
    item-Means (end_mark b) nl x c idle sized room = elim (Bool-cases (nl.state == 0)) [
      | inl early ↦
          let start : nl.state ≡ 0 = ground arith in
          let (x1, x2, x3, c3, run1, run2, run3, idle3, alloc3) =
            receive-last lists objects m little nl x c b idle sized start room in
          let nl' : Serial lists objects = record nl { state = 1 } in
          (
            nl',
            x3,
            c3,
            λ rest.
                packet_reads 1 [] (b ∷ []) rest nl (record nl { rxstate = get_len })
                  (record nl { rxstate = get_body }) nl' x x1 x2 x3 run1 run2 run3,
            idle3,
            sized,
            refl,
            alloc3,
            rw start refl,
          )
      | inr late ↦
          let (nl1, nl2, x1, x2, x3, c3, run1, run2, run3, idle3, alloc3) =
            receive-answer lists objects m little nl x c 1 [] (b ∷ []) idle sized (ground arith)
              refl (omega arith) (omega arith) (omega (arith, room)) in
          let nl' : Serial lists objects = record nl { state = nl.state + 1 } in
          (
            nl',
            x3,
            c3,
            λ rest. packet_reads 1 [] (b ∷ []) rest nl nl1 nl2 nl' x x1 x2 x3 run1 run2 run3,
            idle3,
            sized,
            refl,
            alloc3,
            refl,
          )
    ]

    -- The receiver refines what a device means: on a line between two packets, with lengths of
    -- one byte and while the allocator grants everything, every sequence of stray bytes, object
    -- packets, each body cut into reads in any way, and end marks, that fit the receiver, is
    -- read without a fault and leaves the line between two packets, with the sizes of lengths
    -- and identifiers as they were; whether discovery is over and how many packets came since,
    -- the count, and the list of objects are then what the sequence means, told item by item
    -- without the receiver.
    pub run_reads-meanings :
        (is : List Item) (nl : Serial lists objects) (x : Xfer lists) (c : Chunk)
        → IsIdle lists objects m little nl x c
        → nl.sz_sz ≡ pos 1
        → All (IsItem c.alloc) is
        → (nl' : Serial lists objects) × (x' : Xfer lists) × (c' : Chunk) × (run_reads
              (all_reads is)
              nl
              x
            ≡ some (nl', x'))
          × IsIdle lists objects m little nl' x' c'
          × (nl'.sz_sz ≡ pos 1)
          × (nl'.id_sz ≡ nl.id_sz)
          × (c'.alloc ≡ c.alloc)
          × (view nl' ≡ meanings is (view nl))
    unfolding meanings run_reads
    run_reads-meanings [] nl x c idle sized ok = (nl, x, c, refl, idle, sized, refl, refl, refl)
    run_reads-meanings (i ∷ is) nl x c idle sized ok =
        let (nl1, x1, c1, run1, idle1, sized1, id1, alloc1, means1) =
          item-Means i nl x c idle sized ok.0 in
        let (nl', x', c', run', idle', sized', id', alloc', means') =
          run_reads-meanings is nl1 x1 c1 idle1 sized1 (rw alloc1 ok.1) in
        (
          nl',
          x',
          c',
          run1 (all_reads is) ∙ run',
          idle',
          sized',
          id' ∙ id1,
          alloc' ∙ alloc1,
          means' ∙ ap (meanings is) means1,
        )
