-- ===== src/Samples/Blocks.antt =====
-- Blocks of mappings that are numbers, and packets that hold the packet inside as it is.
use m_svs.Base.{refl, some}
use m_svs.PubSub.State.{InnerData}
use m_svs.PubSub.Blocks.{Reading, Timestamps, Encapsulation, other_type, time_us}
use m_svs.Samples.Paths.{Element, a_name, a_number}

abbrev pub read_time : {K : Type 0} → Element K → Reading
read_time (a_name k) = other_type
read_time (a_number s) = time_us s

instance abbrev pub number_timestamps : {K : Type 0} → Timestamps (Element K)
number_timestamps = record {
  timestamp = a_number;
  reading = read_time;
  reading_timestamp = λ t h. refl;
}

instance abbrev pub held : {K A : Type 0} → Encapsulation K A (InnerData K A)
held = record { wire_encode = λ d f. d; unwrap = λ d. some d; unwrap_wire = λ d f. refl }
