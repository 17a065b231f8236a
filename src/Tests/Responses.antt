-- ===== src/Tests/Responses.antt =====
-- The extractors of response codes on small buffers.
use aflnet_legion.Tests.Ascii.{codes}
use aflnet_legion.Common.{
  leb, length, ◌⊎◌, if◌then◌else◌, ◌≤◌, ℕ, some, ◌^◌, replicate, zero, suc, ◌≡◌, ◌≢◌, refl, List,
  [], ◌∷◌, ◌++◌, map, arith, Bytes,
}
use aflnet_legion.Region.{concat}
use aflnet_legion.Requests.Lines.RoundTrip.{line}
use aflnet_legion.Responses.Lines.{
  extract_response_codes_smtp, extract_response_codes_ftp, extract_response_codes_rtsp,
}
use aflnet_legion.Responses.Lines.Codes.{
  Reply, encode, empty_line, extract_response_codes-replies, extract_response_codes-empty_line,
}
use aflnet_legion.Responses.Lines.Rtsp.{
  ResponseLine, status, other, encode_line, extract_response_codes_rtsp-lines,
}
use aflnet_legion.Requests.Framed.Records
use aflnet_legion.Requests.Framed.Records.{TlsRecord}
use aflnet_legion.Responses.Tls.{extract_response_codes_tls, extract_response_codes_dicom}
use aflnet_legion.Responses.Tls.Termination.{extract_response_codes_tls-returns}
use aflnet_legion.Responses.Tls.Records.{extract_response_codes_tls-records}
use aflnet_legion.Responses.Dns.{extract_response_codes_dns}
use aflnet_legion.Responses.Dns.Answers.{
  extract_response_codes_dns-flags, extract_response_codes_dns-signed,
}
use aflnet_legion.Responses.Lines.Stops.{
  lines, until_zero, code_from, status_lines, extract_response_codes-until_zero,
}
use aflnet_legion.Responses.Dtls.{
  done, aborted, no_fuel, is_record, header, extract_response_codes_dtls12,
}
use aflnet_legion.Responses.Dtls.Termination.{
  NoEmptyRecord, empty_record, extract_response_codes_dtls12-aborted,
  extract_response_codes_dtls12-ends,
}

-- 220 ready
abbrev ready : Reply
ready = record { hundreds = 2; tens = 2; units = 0; text = codes " ready" }

-- 221 bye
abbrev bye : Reply
bye = record { hundreds = 2; tens = 2; units = 1; text = codes " bye" }

extract_response_codes-replies_example :
    (extract_response_codes_smtp (concat (map encode (ready ∷ bye ∷ []))) ≡ 0 ∷ 220 ∷ 221 ∷ [])
    × (extract_response_codes_ftp (concat (map encode (ready ∷ bye ∷ []))) ≡ 0 ∷ 220 ∷ 221 ∷ [])
extract_response_codes-replies_example =
    extract_response_codes-replies (ready ∷ bye ∷ []) (omega arith)

empty_line_at_input :
    (extract_response_codes_smtp (encode bye ++ empty_line) ≡ 0 ∷ 221 ∷ 1 ∷ [])
    × (extract_response_codes_ftp (encode bye ++ empty_line) ≡ 0 ∷ 221 ∷ 1 ∷ [])
empty_line_at_input = extract_response_codes-empty_line bye (omega arith) (omega arith)

-- A response without a body: a status line, a header line and the empty line.
abbrev response : List ResponseLine
response = status bye ∷ other (codes "CSeq: 1") ∷ other [] ∷ []

extract_response_codes_rtsp-lines_at_input :
    extract_response_codes_rtsp (concat (map encode_line response)) ≡ 0 ∷ 221 ∷ []
extract_response_codes_rtsp-lines_at_input =
    extract_response_codes_rtsp-lines response
      (omega arith, ((omega arith, refl), ((tt, refl), tt)))

abbrev two_replies : Bytes
two_replies = line (codes "500") ++ line (codes "000") ++ line (codes "250")

-- The second line ends the sequence.
stops_runs : extract_response_codes_smtp two_replies ≡ 0 ∷ 500 ∷ []
unfolding extract_response_codes_smtp
stops_runs = refl

extract_response_codes-until_zero_example :
    let all = lines (λ i. 0) 0 two_replies in
    (extract_response_codes_smtp two_replies ≡ 0 ∷ until_zero (map (code_from 0) all))
    × (extract_response_codes_ftp two_replies ≡ 0 ∷ until_zero (map (code_from 0) all))
    × (extract_response_codes_rtsp two_replies
        ≡ 0 ∷ until_zero (map (code_from 9) (status_lines all)))
extract_response_codes-until_zero_example = extract_response_codes-until_zero two_replies

extract_response_codes_dtls12-aborted_example :
    extract_response_codes_dtls12 0x10000000 (empty_record 0x16 0 0 0 0 0 0 0 0 0 [])
    ≡ (if leb (2 ^ 28) 0x10000000 then aborted else no_fuel)
extract_response_codes_dtls12-aborted_example =
    extract_response_codes_dtls12-aborted 0x16 0 0 0 0 0 0 0 0 0 [] (omega arith) (omega arith)
      0x10000000

-- An alert of two bytes, and one byte more.
abbrev alert : Bytes
alert = 0x15 ∷ 0xFE ∷ 0xFD ∷ 0 ∷ 0 ∷ 0 ∷ 0 ∷ 0 ∷ 0 ∷ 0 ∷ 0 ∷ 0 ∷ 2 ∷ 2 ∷ 40 ∷ 0 ∷ []

-- The code is the content type and the alert's description.
alert_runs : extract_response_codes_dtls12 17 alert ≡ done (0 ∷ 0x1528 ∷ [])
unfolding extract_response_codes_dtls12
alert_runs = refl

alert-NoEmptyRecord : NoEmptyRecord alert
unfolding is_record header
alert-NoEmptyRecord zero r found e = ground arith
alert-NoEmptyRecord (suc zero) r found e = cc
alert-NoEmptyRecord (suc (suc zero)) r found e = cc
alert-NoEmptyRecord (suc (suc (suc at))) r found e = absurd (ground arith)

extract_response_codes_dtls12-ends_example :
    (extract_response_codes_dtls12 17 alert ≢ no_fuel)
    × ((extract_response_codes_dtls12 17 alert ≢ aborted) ⊎ (2 ^ 28 ≤ length alert))
extract_response_codes_dtls12-ends_example =
    extract_response_codes_dtls12-ends alert (omega arith) alert-NoEmptyRecord (omega arith)

abbrev alert_record : TlsRecord
alert_record = record {
  content_type = 21;
  major = 3;
  minor = 3;
  payload = 2 ∷ 40 ∷ [];
  fits = omega arith;
}

-- ChangeCipherSpec, whose payload is one byte.
abbrev ccs : TlsRecord
ccs = record { content_type = 20; major = 3; minor = 3; payload = 1 ∷ []; fits = omega arith }

-- The last record is not reported.
tls_runs :
    extract_response_codes_tls (concat (map Records.encode (ccs ∷ alert_record ∷ ccs ∷ [])))
    ≡ some (0 ∷ 0x1401 ∷ 0x1502 ∷ [])
unfolding extract_response_codes_tls
tls_runs = refl

extract_response_codes_tls-records_example :
    extract_response_codes_tls (concat (map Records.encode (ccs ∷ alert_record ∷ ccs ∷ [])))
    ≡ some (0 ∷ 0x1401 ∷ 0x1502 ∷ [])
extract_response_codes_tls-records_example =
    extract_response_codes_tls-records (ccs ∷ alert_record ∷ ccs ∷ []) (omega arith)

tls_returns_at_input :
    (codes : List ℕ) × (extract_response_codes_tls (1 ∷ 2 ∷ []) ≡ some (0 ∷ codes))
tls_returns_at_input = extract_response_codes_tls-returns (1 ∷ 2 ∷ [])

dicom_runs : extract_response_codes_dicom (2 ∷ 0 ∷ []) ≡ 0 ∷ 2 ∷ []
unfolding extract_response_codes_dicom
dicom_runs = refl

dns_flags_at_input :
    extract_response_codes_dns
      ((1 ∷ 2 ∷ 1 ∷ 3 ∷ replicate 8 0) ++ ((1 ∷ b'a' ∷ []) ++ 0 ∷ 0 ∷ 1 ∷ 0 ∷ 1 ∷ []))
    ≡ 0 ∷ 0x0103 ∷ []
dns_flags_at_input =
    extract_response_codes_dns-flags 1 2 1 3 (replicate 8 0) (1 ∷ b'a' ∷ []) (0 ∷ 1 ∷ 0 ∷ 1 ∷ [])
      refl (omega arith) (omega arith) (omega arith) (omega arith)

-- The flags 0x8180 of a usual response.
dns_runs :
    extract_response_codes_dns
      ((1 ∷ 2 ∷ 0x81 ∷ 0x80 ∷ replicate 8 0) ++ ((1 ∷ b'a' ∷ []) ++ 0 ∷ 0 ∷ 1 ∷ 0 ∷ 1 ∷ []))
    ≡ 0 ∷ 0xFFFF8080 ∷ []
unfolding extract_response_codes_dns
dns_runs = refl

extract_response_codes_dns-signed_at_input :
    (code : ℕ) × (extract_response_codes_dns
        ((1 ∷ 2 ∷ 0x81 ∷ 0x80 ∷ replicate 8 0) ++ ((1 ∷ b'a' ∷ []) ++ 0 ∷ 0 ∷ 1 ∷ 0 ∷ 1 ∷ []))
      ≡ 0 ∷ code ∷ [])
    × (2 ^ 31 ≤ code)
extract_response_codes_dns-signed_at_input =
    extract_response_codes_dns-signed 1 2 0x81 0x80 (replicate 8 0) (1 ∷ b'a' ∷ [])
      (0 ∷ 1 ∷ 0 ∷ 1 ∷ []) refl (omega arith) (omega arith) (omega arith) (omega arith)
      (omega arith)
