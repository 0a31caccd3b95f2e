-- ===== src/Schemas/Api.antt =====
-- nav/schemas/api.go: what NAV answers, without the XML names. Numbers are natural numbers.
use go_stripenav.Base.{ℕ, Bool, Option, List, Bytes}

pub record BasicResult : Type 0 where
  pub func_code : Bytes
  pub error_code : Bytes
  pub message : Bytes

pub record CommonResponseHeader : Type 0 where
  pub request_id : Bytes
  pub timestamp : Bytes
  pub request_version : Bytes
  pub header_version : Bytes

pub record TokenExchangeResponse : Type 0 where
  pub header : CommonResponseHeader
  pub result : BasicResult
  pub encoded_exchange_token : Bytes
  pub token_validity_from : Bytes
  pub token_validity_to : Bytes

pub record ManageInvoiceResponse : Type 0 where
  pub header : CommonResponseHeader
  pub result : BasicResult
  pub transaction_id : Bytes

pub record ManageAnnulmentResponse : Type 0 where
  pub header : CommonResponseHeader
  pub result : BasicResult
  pub transaction_id : Bytes

pub record ValidationPointer : Type 0 where
  pub tag : Bytes
  pub value : Bytes
  pub line : ℕ
  pub original_invoice_number : Bytes

pub record TechnicalValidationMessage : Type 0 where
  pub validation_result_code : Bytes
  pub validation_error_code : Bytes
  pub message : Bytes

pub record BusinessValidationMessage : Type 0 where
  pub validation_result_code : Bytes
  pub validation_error_code : Bytes
  pub message : Bytes
  pub pointer : Option ValidationPointer

pub record ProcessingResult : Type 0 where
  pub index : ℕ
  pub batch_index : Option ℕ
  pub invoice_status : Bytes
  pub original_request : Bytes
  pub technical_validation_messages : List TechnicalValidationMessage
  pub business_validation_messages : List BusinessValidationMessage
  pub compressed_content_indicator : Bool

pub record AnnulmentData : Type 0 where
  pub annulment_verification_status : Bytes
  pub annulment_decision_date : Bytes
  pub annulment_decision_user : Bytes

pub record ProcessingResults : Type 0 where
  pub processing_result : List ProcessingResult
  pub original_request_version : Bytes
  pub annulment_data : Option AnnulmentData

pub record QueryTransactionStatusResponse : Type 0 where
  pub header : CommonResponseHeader
  pub result : BasicResult
  pub processing_results : ProcessingResults

pub record GeneralExceptionResponse : Type 0 where
  pub func_code : Bytes
  pub error_code : Bytes
  pub message : Bytes
