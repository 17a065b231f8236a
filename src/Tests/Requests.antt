-- ===== src/Tests/Requests.antt =====
-- The extractors of requests on small buffers.
use aflnet_legion.Tests.Ascii.{codes}
use aflnet_legion.Common.{
  ◌≤◌, ◌≡◌, refl, inl, inr, none, some, List, [], ◌∷◌, ◌++◌, map, arith, replicate, Bytes,
}
use aflnet_legion.Region.{region, regions_of, concat}
use aflnet_legion.Requests.Lines.{
  extract_requests_smtp, extract_requests_ftp, extract_requests_rtsp,
}
use aflnet_legion.Requests.Lines.Tiling.{Covers, extract_requests-Covers}
use aflnet_legion.Requests.Lines.RoundTrip.{
  line, extract_requests-lines, extract_requests-trailing_byte,
}
use aflnet_legion.Requests.Lines.Headers.{request, extract_requests_rtsp-requests}
use aflnet_legion.Requests.Framed.{extract_requests_tls, extract_requests_ssh}
use aflnet_legion.Requests.Framed.Tiling.{Returns, extract_requests-Returns}
use aflnet_legion.Requests.Framed.Records
use aflnet_legion.Requests.Framed.Records.{TlsRecord, extract_requests_tls-records}
use aflnet_legion.Requests.Dicom.{extract_requests_dicom}
use aflnet_legion.Requests.Dicom.Tiling.{TilesWhole, extract_requests_dicom-TilesWhole}
use aflnet_legion.Requests.Dicom.Packets
use aflnet_legion.Requests.Dicom.Packets.{Packet, extract_requests_dicom-packets}
use aflnet_legion.Requests.Dtls.{extract_requests_dtls12}
use aflnet_legion.Requests.Dtls.Tiling.{
  extract_requests_dtls12-TilesWhole, extract_requests_dtls12-over_read,
}
use aflnet_legion.Requests.Dns.{extract_requests_dns}
use aflnet_legion.Requests.Dns.Queries
use aflnet_legion.Requests.Dns.Queries.{
  Message, extract_requests_dns-messages, extract_requests_dns-past_end,
}

abbrev session : List Bytes
session = codes "USER a" ∷ codes "QUIT" ∷ []

abbrev buffer : Bytes
buffer = concat (map line session)

smtp_runs : extract_requests_smtp buffer ≡ region 0 7 ∷ region 8 13 ∷ []
unfolding extract_requests_smtp
smtp_runs = refl

-- The byte behind the last line is in no region.
smtp_loses_byte : extract_requests_smtp (buffer ++ b'x' ∷ []) ≡ region 0 7 ∷ region 8 13 ∷ []
unfolding extract_requests_smtp
smtp_loses_byte = refl

extract_requests-Covers_example :
    Covers 14 (extract_requests_smtp buffer)
    × Covers 14 (extract_requests_ftp buffer)
    × Covers 14 (extract_requests_rtsp buffer)
extract_requests-Covers_example = extract_requests-Covers buffer

extract_requests-lines_example :
    (extract_requests_smtp buffer ≡ region 0 7 ∷ region 8 13 ∷ [])
    × (extract_requests_ftp buffer ≡ region 0 7 ∷ region 8 13 ∷ [])
extract_requests-lines_example = extract_requests-lines session (omega arith)

extract_requests-trailing_byte_at_input :
    (extract_requests_smtp (buffer ++ b'x' ∷ []) ≡ regions_of 0 (map line session))
    × (extract_requests_ftp (buffer ++ b'x' ∷ []) ≡ regions_of 0 (map line session))
extract_requests-trailing_byte_at_input =
    extract_requests-trailing_byte (codes "USER a") (codes "QUIT" ∷ []) b'x' (omega arith)

abbrev rtsp_session : List (List Bytes)
rtsp_session =
    (codes "OPTIONS * RTSP/1.0" ∷ codes "CSeq: 1" ∷ []) ∷ (codes "TEARDOWN * RTSP/1.0" ∷ []) ∷ []

extract_requests_rtsp-requests_example :
    extract_requests_rtsp (concat (map request rtsp_session)) ≡ region 0 30 ∷ region 31 53 ∷ []
extract_requests_rtsp-requests_example = extract_requests_rtsp-requests rtsp_session (omega arith)

abbrev hello : TlsRecord
hello = record {
  content_type = 22;
  major = 3;
  minor = 3;
  payload = 1 ∷ 2 ∷ 3 ∷ [];
  fits = omega arith;
}

abbrev done : TlsRecord
done = record { content_type = 23; major = 3; minor = 3; payload = []; fits = omega arith }

abbrev tls_buffer : Bytes
tls_buffer = concat (map Records.encode (hello ∷ done ∷ hello ∷ []))

tls_runs : extract_requests_tls tls_buffer ≡ some (region 0 7 ∷ region 8 12 ∷ region 13 20 ∷ [])
unfolding extract_requests_tls
tls_runs = refl

extract_requests_tls-records_example :
    extract_requests_tls tls_buffer ≡ some (region 0 7 ∷ region 8 12 ∷ region 13 20 ∷ [])
extract_requests_tls-records_example = extract_requests_tls-records (hello ∷ done ∷ hello ∷ [])

-- An identification line and a message of the key exchange.
abbrev ssh_buffer : Bytes
ssh_buffer = line (codes "SSH-2.0-x") ++ 0 ∷ 0 ∷ 0 ∷ 4 ∷ 1 ∷ 20 ∷ 7 ∷ 7 ∷ 9 ∷ []

ssh_runs : extract_requests_ssh ssh_buffer ≡ some (region 0 10 ∷ region 11 19 ∷ [])
unfolding extract_requests_ssh
ssh_runs = refl

extract_requests-Returns_example :
    Returns 20 (extract_requests_tls ssh_buffer) × Returns 20 (extract_requests_ssh ssh_buffer)
extract_requests-Returns_example = extract_requests-Returns ssh_buffer

abbrev associate : Packet
associate = record { kind = 1; reserved = 0; payload = 5 ∷ 6 ∷ [] }

abbrev dicom_buffer : Bytes
dicom_buffer = concat (map Packets.encode (associate ∷ associate ∷ []))

extract_requests_dicom-packets_example :
    extract_requests_dicom dicom_buffer ≡ some (region 0 7 ∷ region 8 15 ∷ [])
extract_requests_dicom-packets_example =
    extract_requests_dicom-packets (associate ∷ associate ∷ []) (omega arith)

-- A packet that claims 2 ^ 32 - 1 bytes, so that its length wraps to 5.
abbrev huge : Bytes
huge = 1 ∷ 0 ∷ 255 ∷ 255 ∷ 255 ∷ 255 ∷ 0 ∷ 0 ∷ []

dicom_wraps : extract_requests_dicom huge ≡ some (region 0 4 ∷ region 5 7 ∷ [])
unfolding extract_requests_dicom
dicom_wraps = refl

extract_requests_dicom-TilesWhole_example : TilesWhole 8 0 (extract_requests_dicom huge)
extract_requests_dicom-TilesWhole_example = extract_requests_dicom-TilesWhole huge (omega arith)

-- Two records, whose payload is one byte.
abbrev dtls_buffer : Bytes
dtls_buffer = 0x16 ∷ 0xFE ∷ 0xFD ∷ 0 ∷ 9 ∷ 0x17 ∷ 0xFE ∷ 0xFD ∷ []

extract_requests_dtls12-TilesWhole_example :
    TilesWhole 10 0 (extract_requests_dtls12 (dtls_buffer ++ 1 ∷ 2 ∷ []))
extract_requests_dtls12-TilesWhole_example =
    extract_requests_dtls12-TilesWhole dtls_buffer 1 2 (inr (inl (omega arith)))

dtls_runs :
    extract_requests_dtls12 (dtls_buffer ++ 1 ∷ 2 ∷ []) ≡ some (region 0 4 ∷ region 5 9 ∷ [])
unfolding extract_requests_dtls12
dtls_runs = refl

dtls12_over_read_at_input : extract_requests_dtls12 (dtls_buffer ++ 0x16 ∷ 2 ∷ []) ≡ none
dtls12_over_read_at_input =
    extract_requests_dtls12-over_read dtls_buffer 0x16 2 (omega arith) (omega arith) (omega arith)

abbrev query : Message
query = record {
  header = replicate 12 0;
  name = 3 ∷ b'c' ∷ b'o' ∷ b'm' ∷ [];
  tail = 0 ∷ 1 ∷ 0 ∷ 1 ∷ [];
  header_size = refl;
  name_bytes = omega arith;
  tail_size = refl;
}

extract_requests_dns-messages_example :
    extract_requests_dns (concat (map Queries.encode (query ∷ query ∷ [])))
    ≡ region 0 20 ∷ region 21 41 ∷ []
extract_requests_dns-messages_example = extract_requests_dns-messages (query ∷ query ∷ [])

dns_past_end_at_input :
    (extract_requests_dns (replicate 12 0 ++ ((3 ∷ []) ++ 0 ∷ 0 ∷ 1 ∷ [])) ≡ region 0 17 ∷ [])
    × (16 ≤ 17)
dns_past_end_at_input =
    extract_requests_dns-past_end (replicate 12 0) (3 ∷ []) (0 ∷ 1 ∷ []) refl (omega arith)
      (omega arith) (omega arith)
