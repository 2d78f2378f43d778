-- ===== src/Gtest/Sensor/Frames.antt =====
-- A sensor's frame against what the collector stores and what the check finds.
pub mod Tests
use mathlib.Core.Option.{some-injective}
use mathlib.Core.Path.{subst}
use communicate_core.Common.{
  ℕ, ◌+◌, ◌-◌, ◌*◌, ◌^◌, ◌≤◌, ◌<◌, ◌≡◌, ◌⊎◌, refl, sym, ◌∙◌, List, some, arith, length, ◌==◌,
  if◌then◌else◌,
}
use communicate_core.Memory.{peek, peek_cong, IsBytes}
use communicate_core.Command.{get_send_cmd_size, get_recv_cmd_size}
use communicate_core.Frame.Layout.{packet_crc_error, packet_format_ok, uds2_id, frame_size}
use communicate_core.Frame.Crc.{frame_crc}
use communicate_core.Frame.Spec.{IsFrame}
use communicate_core.Frame.Build.{make_recv_packet}
use communicate_core.Frame.Build.Outcome.{answer_size, request_size}
use communicate_core.Frame.Build.Writes.{written-IsBytes}
use communicate_core.Frame.Request.{make_recv_packet-IsFrame, make_recv_packet-written}
use communicate_core.Frame.Check.{check_packet_format}
use communicate_core.Frame.Check.Verdict.{check_packet_format_sized}
use communicate_core.Sensor.Readings.{Sensor, extern1, extern2, extern3, extern4, id_of}
use communicate_core.Sensor.Pipeline.{doubles}
use communicate_core.Sensor.Latest.Defs.{IsReading}
use communicate_core.Gtest.Sensor.Defs.{msg_id_of, sensor_frame}
use communicate_core.Gtest.Sensor.Payload.{
  payload_size, IsFilled, AreDoubles, fill_payload-IsFilled,
}

sizes :
    (s : Sensor)
    → (answer_size (id_of s) ≡ payload_size s) × (request_size (id_of s) ≡ payload_size s)
unfolding get_send_cmd_size get_recv_cmd_size
sizes extern1 = (refl, refl)
sizes extern2 = (refl, refl)
sizes extern3 = (refl, refl)
sizes extern4 = (refl, refl)

id_of-lt : (s : Sensor) → id_of s < 2 ^ 15
id_of-lt s = grind arith

to_uds2 : (s : Sensor) → (msg_id_of s).dst_id ≡ uds2_id
to_uds2 extern1 = refl
to_uds2 extern2 = refl
to_uds2 extern3 = refl
to_uds2 extern4 = refl

from-lt : (s : Sensor) → (msg_id_of s).src_id < 256
from-lt s = grind arith

-- The frame of a sensor: its doubles, behind a header that the collector understands.
pub record IsSensorFrame (s : Sensor) (value : ℕ → ℕ) (packet frame : List ℕ) : Type 0 where
  pub size : length frame ≡ frame_size (payload_size s)
  pub reading : IsReading (record { sensor = s; bytes = frame })
  pub values : (k : ℕ) → k < doubles s → peek 8 frame (11 + 8 * k) ≡ value k
  pub checked :
      check_packet_format frame (msg_id_of s) (frame_size (payload_size s))
      ≡ some (
          if frame_crc frame (frame_size (payload_size s))
            == frame_crc packet (frame_size (payload_size s))
          then packet_format_ok
          else packet_crc_error)

doubles-le : (s : Sensor) → doubles s ≤ 3
doubles-le s = grind arith

module _ (s : Sensor) (value : ℕ → ℕ) (packet frame : List ℕ)
    (is : IsFrame uds2_id (payload_size s) packet) (f : IsFilled (doubles s) value packet frame)
    (room : length packet ≡ frame_size (payload_size s)) (are_bytes : IsBytes packet) where
  outside_peek :
      (m at : ℕ) → (at + m ≤ 11) ⊎ (11 + payload_size s ≤ at) → peek m frame at ≡ peek m packet at
  outside_peek m at o = peek_cong m frame packet at (λ j low high. f.outside j (omega arith))

  filled_checked :
      check_packet_format frame (msg_id_of s) (frame_size (payload_size s))
      ≡ some (
          if frame_crc frame (frame_size (payload_size s))
            == frame_crc packet (frame_size (payload_size s))
          then packet_format_ok
          else packet_crc_error)
  filled_checked =
      rw
        (check_packet_format_sized frame (msg_id_of s) (frame_size (payload_size s)) (omega arith)
          (omega (arith, f.same_length)) (omega (arith, doubles-le s))
          (omega (arith, is.stated, doubles-le s, outside_peek 4 2 (omega arith))))
        (ground (
          arith,
          to_uds2 s,
          is.stx,
          is.stated,
          is.addressed,
          is.crc,
          is.etx,
          doubles-le s,
          outside_peek 2 0 (omega arith),
          outside_peek 4 2 (omega arith),
          outside_peek 2 (12 + payload_size s) (omega arith),
          f.outside 7,
          f.outside (11 + payload_size s),
        ))

  filled-IsSensorFrame : peek 2 packet 9 ≡ id_of s → IsSensorFrame s value packet frame
  filled-IsSensorFrame command = record {
    size = f.same_length ∙ room;
    reading = record {
      are_bytes = f.still_bytes are_bytes;
      whole = omega (arith, f.same_length);
      fits = omega (arith, f.same_length, doubles-le s);
      command = ground (arith, id_of-lt s, command, outside_peek 2 9 (omega arith));
    };
    values = f.values;
    checked = filled_checked;
  }

module _ (s : Sensor) (value : ℕ → ℕ) (buffer : List ℕ) (bytes : IsBytes buffer)
    (room : length buffer ≡ frame_size (payload_size s)) (are : AreDoubles (doubles s) value) where
  packet_made :
      (packet : List ℕ) × (make_recv_packet (id_of s) (msg_id_of s) buffer ≡ some packet)
      × (length packet ≡ length buffer)
      × (peek 2 packet 9 ≡ id_of s)
      × IsFrame uds2_id (payload_size s) packet
      × IsBytes packet
  packet_made =
      let src = (msg_id_of s).src_id in
      let dst = (msg_id_of s).dst_id in
      let enough : frame_size (answer_size (id_of s)) ≤ length buffer = omega (arith, sizes s) in
      let (packet, built, header, frame) =
        make_recv_packet-IsFrame (id_of s) (msg_id_of s) buffer (omega (arith, id_of-lt s))
          (from-lt s) (omega (arith, to_uds2 s)) enough (omega (arith, sizes s)) in
      let same =
        some-injective _ packet
          (sym (make_recv_packet-written (id_of s) (msg_id_of s) buffer enough) ∙ built) in
      (
        packet,
        built,
        header.same_length,
        header.command,
        subst (λ n. IsFrame uds2_id n packet) (sizes s).0
            (subst (λ d. IsFrame d (answer_size (id_of s)) packet) (to_uds2 s) frame),
        subst IsBytes same (
            written-IsBytes src dst (request_size (id_of s)) (id_of s) buffer
              (answer_size (id_of s)) bytes),
      )

  -- A sensor's frame, made before its payload is written, holds the sensor's doubles and is
  -- understood by the collector, but its CRC is that of what stood in the array: the check accepts
  -- it exactly if the CRC of the doubles is the same, and reports a CRC error alone otherwise.
  pub sensor_frame-checked :
      (packet frame : List ℕ) × (make_recv_packet (id_of s) (msg_id_of s) buffer ≡ some packet)
      × (sensor_frame s value buffer ≡ some frame)
      × IsSensorFrame s value packet frame
  unfolding sensor_frame
  sensor_frame-checked =
      let (packet, built, same_length, command, is, are_bytes) = packet_made in
      let (frame, filled, f) =
        fill_payload-IsFilled s value packet are (omega (arith, same_length)) in
      (
        packet,
        frame,
        built,
        rw built filled,
        filled-IsSensorFrame s value packet frame is f (same_length ∙ room) are_bytes command,
      )
