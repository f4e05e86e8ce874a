-- ===== src/Pipeline.antt =====
-- The stages of the pipeline, of src/Processor/Pipeline: Fetch1 is Fetch1.cc as far as it chooses
-- addresses, Decode is Decode.cc with its queue, Dispatch the two functions of Dispatch.cc that hand
-- instructions to the schedulers.
pub mod Fetch1
pub mod Decode
pub mod Dispatch
