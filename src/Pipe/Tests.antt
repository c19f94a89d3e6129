-- ===== src/Pipe/Tests.antt =====
-- A byte goes through a pipe.
use jos_kernel.Base.{[], arith, refl, ◌∷◌}
use jos_kernel.Pipe.{store_byte}
use jos_kernel.Pipe.Fifo.{Reach-Inv}
use jos_kernel.Pipe.Inv.{Inv}
use jos_kernel.Pipe.Refine.{ChannelStep, Step-ChannelStep, view}
use jos_kernel.Pipe.Steps.{
  initial, Reach, System, Write, by_writer, later, new_pipe, put_byte, some_room, start,
  write_ready, write_stored,
}

abbrev writing : System
writing = record initial { writer = write_ready 65 [] 0 }

writing-Reach : Reach writing
writing-Reach =
    later (later start (by_writer (Write.call {bytes = 65 ∷ []}))) (by_writer (some_room refl))

Step-ChannelStep_example :
    ChannelStep
      (view writing)
      (view (record writing { writer = write_stored 65 [] 0; pipe = store_byte 65 new_pipe }))
Step-ChannelStep_example =
    Step-ChannelStep writing
      (record writing { writer = write_stored 65 [] 0; pipe = store_byte 65 new_pipe })
      writing-Reach (omega arith) (by_writer put_byte)

Reach-Inv_example : Inv writing
Reach-Inv_example = Reach-Inv writing writing-Reach (omega arith)
