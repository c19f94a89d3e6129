-- ===== src/Pipe/Refine.antt =====
-- A pipe is a bounded queue of bytes: the abstract channel, and that every step of the processes is
-- a step of the channel.
use jos_kernel.Base.{List, [], ap, arith, length, subst, sym, ℕ, ◌++◌, ◌-◌, ◌<◌, ◌∙◌, ◌∷◌, ◌≡◌}
use jos_kernel.Pipe.{advance_read, pipe_size, store_byte}
use jos_kernel.Pipe.Fifo.{Reach-Inv}
use jos_kernel.Pipe.Inv.{
  Inv, IsShort, ReaderKnows, WriterKnows, contents-advance_read, contents-advance_write,
  contents-store_byte,
}
use jos_kernel.Pipe.Steps.{
  Reach, Read, Reader, Step, System, Write, Writer, by_reader, by_writer, closed, end_of_file,
  no_more, put_byte, some_data, some_room, take_byte,
}
use jos_kernel.Pipe.Window.{contents, length-window}

-- The bytes in the channel, oldest first, and those that have gone in and come out.
pub record Channel : Type 0 where
  pub queue : List ℕ
  pub sent : List ℕ
  pub received : List ℕ

-- What can happen to a channel.
pub data ChannelStep (c : Channel) : Channel → Type 0 where
  unseen : ChannelStep c c
  enqueue :
      (b : ℕ)
      → length c.queue < pipe_size
      → ChannelStep c (record c { queue = c.queue ++ (b ∷ []); sent = c.sent ++ (b ∷ []) })
  dequeue :
      (b : ℕ) (rest : List ℕ)
      → c.queue ≡ b ∷ rest
      → ChannelStep c (record c { queue = rest; received = c.received ++ (b ∷ []) })

-- The channel that the state of the pipe stands for.
abbrev pub view : System → Channel
view s = record { queue = contents s.pipe; sent = s.sent; received = s.received }

same_view :
    (s : System) (q : List ℕ)
    → q ≡ contents s.pipe
    → ChannelStep (view s) (record (view s) { queue = q })
same_view s q e = subst (λ x. ChannelStep (view s) (record (view s) { queue = x })) (sym e) unseen

Read-refines :
    {s t : System} {r : Reader}
    → Inv s
    → ReaderKnows s.pipe r
    → IsShort s
    → Read s r t
    → ChannelStep (view s) (view t)
Read-refines v h short Read.call = unseen
Read-refines v h short (Read.complete _) = unseen
Read-refines v h short (some_data _ _) = unseen
Read-refines v h short (no_more _ _ _) = unseen
Read-refines v h short (end_of_file _ _ _) = unseen
Read-refines v h short (Read.wait _ _ _) = unseen
Read-refines v h short take_byte = unseen
Read-refines {s} v h short (Read.advance {n} {i} {b}) = dequeue b (contents (advance_read s.pipe)) (
    contents-advance_read s.pipe h.0 (omega (arith, v.counted))
    ∙ ap (λ x. x ∷ contents (advance_read s.pipe)) (sym h.1))

Write-refines :
    {s t : System} {w : Writer}
    → Inv s
    → WriterKnows s.pipe w
    → IsShort s
    → Write s w t
    → ChannelStep (view s) (view t)
Write-refines v h short Write.call = unseen
Write-refines v h short Write.complete = unseen
Write-refines v h short (some_room _) = unseen
Write-refines v h short (closed _) = unseen
Write-refines v h short (Write.wait _) = unseen
Write-refines {s} v h short (put_byte {b} {i} {rest}) =
    same_view s (contents (store_byte b s.pipe)) (contents-store_byte s.pipe b v.order h)
Write-refines {s} v h short (Write.advance {b} {i} {rest}) =
    subst (λ q. ChannelStep (view s) (record (view s) { queue = q; sent = s.sent ++ (b ∷ []) }))
      (sym (contents-advance_write s.pipe b v.order (omega (arith, v.counted)) h.1))
      (enqueue b (
        omega (
          arith,
          v.order,
          h.0,
          length-window s.pipe.p_buf s.pipe.p_rpos (s.pipe.p_wpos - s.pipe.p_rpos),
        )))

-- The processes of a pipe implement a queue of at most PIPEBUFSIZ bytes: after any interleaving,
-- each further step puts one byte in at the back while there is room, takes one byte out at the
-- front, or is not seen; while fewer than 2 ^ 31 bytes have been sent.
pub Step-ChannelStep :
    (s t : System) → Reach s → IsShort s → Step s t → ChannelStep (view s) (view t)
Step-ChannelStep s t r short (by_reader m) =
    let v = Reach-Inv s r short in Read-refines v v.reader short m
Step-ChannelStep s t r short (by_writer m) =
    let v = Reach-Inv s r short in Write-refines v v.writer short m
