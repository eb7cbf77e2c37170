-- ===== src/Tests/Live.antt =====
-- Live streams at concrete inputs.
use Prim.Native.Nat.{ℕ}
use meeting_overlay_assistan.Base.{
  ◌≡◌, refl, true, false, some, List, [], ◌∷◌, ◌++◌, ◌==◌, string_eq, arith,
}
use meeting_overlay_assistan.Live.Chunks.{coalesce_final_tail_chunk}
use meeting_overlay_assistan.Live.Context.{
  LiveStreamContext, preview, final, new_context, enqueue_chunk,
}
use meeting_overlay_assistan.Live.Policy.{is_job_kind_ready, next_job_kind}
use meeting_overlay_assistan.Live.Claiming.{claim_inference_job}
use meeting_overlay_assistan.Live.History.{
  Op, receives, takes, starts, idles, closes_input, ends, publishes, delivers, step, run,
}
use meeting_overlay_assistan.Live.Bounds.{IsBounded, run-new_context}
use meeting_overlay_assistan.Live.Delivery.{taken, waiting, received, taken-waiting}
use meeting_overlay_assistan.Live.Readiness.{
  IsClaim, IsNext, claim_inference_job-IsClaim, next_job_kind-IsNext,
}

abbrev fresh : LiveStreamContext ℕ
fresh = new_context "pcm:session-1:0" "session-1" (some "mic") "pcm" true 2

-- Four chunks for a queue of two, with a final taken in between, and the input closed at the end.
abbrev talk : List (Op ℕ)
talk =
    receives (1 ∷ [])
    ∷ receives (2 ∷ [])
    ∷ receives (3 ∷ [])
    ∷ takes final
    ∷ starts final
    ∷ receives (4 ∷ [])
    ∷ publishes (7 ∷ []) []
    ∷ idles final
    ∷ closes_input
    ∷ takes final
    ∷ delivers
    ∷ ends
    ∷ ends
    ∷ []

talk-waiting : (run fresh talk).pending_final_chunks ≡ (4 ∷ []) ∷ []
unfolding run new_context step coalesce_final_tail_chunk
talk-waiting = refl

run-new_context_example :
    IsBounded (run (new_context "pcm:session-1:0" "session-1" (some "mic") "pcm" true 2) talk)
run-new_context_example =
    run-new_context "pcm:session-1:0" "session-1" (some "mic") "pcm" true 2 talk (ground arith)

fresh-not_text : (fresh.stream_kind == "text") ≡ false
unfolding new_context string_eq
fresh-not_text = refl

taken-waiting_example :
    taken fresh talk ++ waiting (run fresh talk) ≡ waiting fresh ++ received talk
taken-waiting_example = taken-waiting fresh talk fresh-not_text

abbrev one_chunk : LiveStreamContext ℕ
one_chunk = enqueue_chunk fresh (1 ∷ [])

one_chunk-ready : is_job_kind_ready one_chunk preview ≡ true
unfolding is_job_kind_ready enqueue_chunk new_context
one_chunk-ready = refl

claim_inference_job_example :
    IsClaim one_chunk
      (claim_inference_job one_chunk preview).0
      preview
      (claim_inference_job one_chunk preview).1
claim_inference_job_example = claim_inference_job-IsClaim one_chunk preview one_chunk-ready

next_job_kind_example : IsNext one_chunk (next_job_kind one_chunk)
next_job_kind_example = next_job_kind-IsNext one_chunk
