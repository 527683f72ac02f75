-- ===== src/Cpu/InstructionId.antt =====
-- libcpu/inc/instructionTable.h with libcpu/inc/instructions.inl: the enumerators, in their order.
pub mod Index

pub data InstructionId : Type 0 where
  invalid b_cond br blr ret eret : InstructionId
  drps b bl cbz_32 cbnz_32 cbz_64 : InstructionId
  cbnz_64 tbz tbnz svc hvc smc : InstructionId
  brk hlt dcps1 dcps2 dcps3 msr_imm : InstructionId
  msr_reg hint nop yield wfe wfi : InstructionId
  sev sevl clrex dsb dmb isb : InstructionId
  sys sysl mrs adr adrp add_32_imm : InstructionId
  adds_32_imm sub_32_imm subs_32_imm add_64_imm adds_64_imm sub_64_imm : InstructionId
  subs_64_imm and_32_imm orr_32_imm eor_32_imm ands_32_imm and_64_imm : InstructionId
  orr_64_imm eor_64_imm ands_64_imm movn_32 movz_32 movk_32 : InstructionId
  movn_64 movz_64 movk_64 sbfm_32 bfm_32 ubfm_32 : InstructionId
  sbfm_64 bfm_64 ubfm_64 extr_32 extr_64 udiv_32 : InstructionId
  sdiv_32 lslv_32 lsrv_32 asrv_32 rorv_32 udiv_64 : InstructionId
  sdiv_64 lslv_64 lsrv_64 asrv_64 rorv_64 crc32b : InstructionId
  crc32h crc32w crc32x crc32cb crc32ch crc32cw : InstructionId
  crc32cx rbit_32 rev16_32 rev_32 clz_32 cls_32 : InstructionId
  rbit_64 rev16_64 rev32_64 rev_64 clz_64 cls_64 : InstructionId
  and_32_shifted bic_32_shifted orr_32_shifted orn_32_shifted eor_32_shifted eon_32_shifted :
      InstructionId
  ands_32_shifted bics_32_shifted and_64_shifted bic_64_shifted orr_64_shifted orn_64_shifted :
      InstructionId
  eor_64_shifted eon_64_shifted ands_64_shifted bics_64_shifted add_32_shifted adds_32_shifted :
      InstructionId
  sub_32_shifted subs_32_shifted add_64_shifted adds_64_shifted sub_64_shifted subs_64_shifted :
      InstructionId
  add_32_extended adds_32_extended sub_32_extended subs_32_extended add_64_extended
        adds_64_extended :
      InstructionId
  sub_64_extended subs_64_extended adc_32 adcs_32 sbc_32 sbcs_32 : InstructionId
  adc_64 adcs_64 sbc_64 sbcs_64 ccmn_32_reg ccmp_32_reg : InstructionId
  ccmn_64_reg ccmp_64_reg ccmn_32_imm ccmp_32_imm ccmn_64_imm ccmp_64_imm : InstructionId
  csel_32 csinc_32 csinv_32 csneg_32 csel_64 csinc_64 : InstructionId
  csinv_64 csneg_64 madd_32 msub_32 madd_64 msub_64 : InstructionId
  smaddl smsubl smulh umaddl umsubl umulh : InstructionId
  st1_multi_1reg st1_multi_2reg st1_multi_3reg st1_multi_4reg st2_multi st3_multi : InstructionId
  st4_multi ld1_multi_1reg ld1_multi_2reg ld1_multi_3reg ld1_multi_4reg ld2_multi : InstructionId
  ld3_multi ld4_multi st1_multi_reg_1reg st1_multi_reg_2reg st1_multi_reg_3reg st1_multi_reg_4reg :
      InstructionId
  st2_multi_reg st3_multi_reg st4_multi_reg st1_multi_offset_1reg st1_multi_offset_2reg
        st1_multi_offset_3reg :
      InstructionId
  st1_multi_offset_4reg st2_multi_offset st3_multi_offset st4_multi_offset ld1_multi_reg_1reg
        ld1_multi_reg_2reg :
      InstructionId
  ld1_multi_reg_3reg ld1_multi_reg_4reg ld2_multi_reg ld3_multi_reg ld4_multi_reg
        ld1_multi_offset_1reg :
      InstructionId
  ld1_multi_offset_2reg ld1_multi_offset_3reg ld1_multi_offset_4reg ld2_multi_offset
        ld3_multi_offset ld4_multi_offset :
      InstructionId
  st1_single_8 st1_single_16 st1_single_32 st1_single_64 st2_single_8 st2_single_16 : InstructionId
  st2_single_32 st2_single_64 st3_single_8 st3_single_16 st3_single_32 st3_single_64 : InstructionId
  st4_single_8 st4_single_16 st4_single_32 st4_single_64 ld1_single_8 ld1_single_16 : InstructionId
  ld1_single_32 ld1_single_64 ld2_single_8 ld2_single_16 ld2_single_32 ld2_single_64 : InstructionId
  ld3_single_8 ld3_single_16 ld3_single_32 ld3_single_64 ld4_single_8 ld4_single_16 : InstructionId
  ld4_single_32 ld4_single_64 ld1r ld2r ld3r ld4r : InstructionId
  st1_single_8_reg st1_single_16_reg st1_single_32_reg st1_single_64_reg st2_single_8_reg
        st2_single_16_reg :
      InstructionId
  st2_single_32_reg st2_single_64_reg st3_single_8_reg st3_single_16_reg st3_single_32_reg
        st3_single_64_reg :
      InstructionId
  st4_single_8_reg st4_single_16_reg st4_single_32_reg st4_single_64_reg st1_single_8_imm
        st1_single_16_imm :
      InstructionId
  st1_single_32_imm st1_single_64_imm st2_single_8_imm st2_single_16_imm st2_single_32_imm
        st2_single_64_imm :
      InstructionId
  st3_single_8_imm st3_single_16_imm st3_single_32_imm st3_single_64_imm st4_single_8_imm
        st4_single_16_imm :
      InstructionId
  st4_single_32_imm st4_single_64_imm ld1_single_8_reg ld1_single_16_reg ld1_single_32_reg
        ld1_single_64_reg :
      InstructionId
  ld2_single_8_reg ld2_single_16_reg ld2_single_32_reg ld2_single_64_reg ld3_single_8_reg
        ld3_single_16_reg :
      InstructionId
  ld3_single_32_reg ld3_single_64_reg ld4_single_8_reg ld4_single_16_reg ld4_single_32_reg
        ld4_single_64_reg :
      InstructionId
  ld1r_reg ld2r_reg ld3r_reg ld4r_reg ld1_single_8_imm ld1_single_16_imm : InstructionId
  ld1_single_32_imm ld1_single_64_imm ld2_single_8_imm ld2_single_16_imm ld2_single_32_imm
        ld2_single_64_imm :
      InstructionId
  ld3_single_8_imm ld3_single_16_imm ld3_single_32_imm ld3_single_64_imm ld4_single_8_imm
        ld4_single_16_imm :
      InstructionId
  ld4_single_32_imm ld4_single_64_imm ld1r_imm ld2r_imm ld3r_imm ld4r_imm : InstructionId
  stxrb stlxrb ldxrb ldaxrb stlrb ldarb : InstructionId
  stxrh stlxrh ldxrh ldaxrh stlrh ldarh : InstructionId
  stxr32 stlxr32 stxp32 stlxp32 ldxr32 ldaxr32 : InstructionId
  ldxp32 ldaxp32 stlr32 ldar32 stxr64 stlxr64 : InstructionId
  stxp64 stlxp64 ldxr64 ldaxr64 ldxp64 ldaxp64 : InstructionId
  stlr64 ldar64 ldr32_literal ldr32_literal_float ldr64_literal ldr64_literal_float : InstructionId
  ldrsw_literal ldr128_literal prfm_literal stnp32 ldnp32 stnp32_float : InstructionId
  ldnp32_float stnp64_float ldnp64_float stnp64 ldnp64 stnp128 : InstructionId
  ldnp128 stp32_post ldp32_post stp32_post_float ldp32_post_float ldpsw_post : InstructionId
  stp64_post_float ldp64_post_float stp64_post ldp64_post stp128_post ldp128_post : InstructionId
  stp32_offset ldp32_offset stp32_offset_float ldp32_offset_float ldpsw_offset stp64_offset_float :
      InstructionId
  ldp64_offset_float stp64_offset ldp64_offset stp128_offset ldp128_offset stp32_pre : InstructionId
  ldp32_pre stp32_pre_float ldp32_pre_float ldpsw_pre stp64_pre_float ldp64_pre_float :
      InstructionId
  stp64_pre ldp64_pre stp128_pre ldp128_pre sturb ldurb : InstructionId
  ldursb64 ldursb32 stur8_float ldur8_float stur128 ldur128 : InstructionId
  sturh ldurh ldursh64 ldursh32 stur16_float ldur16_float : InstructionId
  stur32 ldur32 ldursw stur32_float ldur32_float stur64 : InstructionId
  ldur64 prfm_unscaled stur64_float ldur64_float strb_post ldrb_post : InstructionId
  ldrsb64_post ldrsb32_post str8_post_float ldr8_post_float str128_post ldr128_post : InstructionId
  strh_post ldrh_post ldrsh64_post ldrsh32_post str16_post_float ldr16_post_float : InstructionId
  str32_post ldr32_post ldrsw_post str32_post_float ldr32_post_float str64_post : InstructionId
  ldr64_post str64_post_float ldr64_post_float sttrb ldtrb ldtrsb64 : InstructionId
  ldtrsb32 sttrh ldtrh ldtrsh64 ldtrsh32 sttr32 : InstructionId
  ldtr32 ldtrsw sttr64 ldtr64 strb_pre ldrb_pre : InstructionId
  ldrsb64_pre ldrsb32_pre str8_pre_float ldr8_pre_float str128_pre ldr128_pre : InstructionId
  strh_pre ldrh_pre ldrsh64_pre ldrsh32_pre str16_pre_float ldr16_pre_float : InstructionId
  str32_pre ldr32_pre ldrsw_pre str32_pre_float ldr32_pre_float str64_pre : InstructionId
  ldr64_pre str64_pre_float ldr64_pre_float strb_reg ldrb_reg ldrsb64_reg : InstructionId
  ldrsb32_reg str8_reg_float ldr8_reg_float str128_reg ldr128_reg strh_reg : InstructionId
  ldrh_reg ldrsh64_reg ldrsh32_reg str16_reg_float ldr16_reg_float str32_reg : InstructionId
  ldr32_reg ldrsw_reg str32_reg_float ldr32_reg_float str64_reg ldr64_reg : InstructionId
  prfm_reg str64_reg_float ldr64_reg_float strb_imm ldrb_imm ldrsb64_imm : InstructionId
  ldrsb32_imm str8_imm_float ldr8_imm_float str128_imm ldr128_imm strh_imm : InstructionId
  ldrh_imm ldrsh64_imm ldrsh32_imm str16_imm_float ldr16_imm_float str32_imm : InstructionId
  ldr32_imm ldrsw_imm str32_imm_float ldr32_imm_float str64_imm ldr64_imm : InstructionId
  prfm_imm str64_imm_float ldr64_imm_float scvtf_32_single_fixed ucvtf_32_single_fixed
        fcvtzs_single_32_fixed :
      InstructionId
  fcvtzu_single_32_fixed scvtf_32_double_fixed ucvtf_32_double_fixed fcvtzs_double_32_fixed
        fcvtzu_double_32_fixed scvtf_64_single_fixed :
      InstructionId
  ucvtf_64_single_fixed fcvtzs_single_64_fixed fcvtzu_single_64_fixed scvtf_64_double_fixed
        ucvtf_64_double_fixed fcvtzs_double_64_fixed :
      InstructionId
  fcvtzu_double_64_fixed fcvtns_single_32_int fcvtnu_single_32_int scvtf_32_single_int
        ucvtf_32_single_int fcvtas_single_32_int :
      InstructionId
  fcvtau_single_32_int fmov_single_32 fmov_32_single fcvtps_single_32_int fcvtpu_single_32_int
        fcvtms_single_32_int :
      InstructionId
  fcvtmu_single_32_int fcvtzs_single_32_int fcvtzu_single_32_int fcvtns_double_32_int
        fcvtnu_double_32_int scvtf_32_double_int :
      InstructionId
  ucvtf_32_double_int fcvtas_double_32_int fcvtau_double_32_int fcvtps_double_32_int
        fcvtpu_double_32_int fcvtms_double_32_int :
      InstructionId
  fcvtmu_double_32_int fcvtzs_double_32_int fcvtzu_double_32_int fcvtns_single_64_int
        fcvtnu_single_64_int scvtf_64_single_int :
      InstructionId
  ucvtf_64_single_int fcvtas_single_64_int fcvtau_single_64_int fcvtps_single_64_int
        fcvtpu_single_64_int fcvtms_single_64_int :
      InstructionId
  fcvtmu_single_64_int fcvtzs_single_64_int fcvtzu_single_64_int fcvtns_double_64_int
        fcvtnu_double_64_int scvtf_64_double_int :
      InstructionId
  ucvtf_64_double_int fcvtas_double_64_int fcvtau_double_64_int fmov_double_64 fmov_64_double
        fcvtps_double_64_int :
      InstructionId
  fcvtpu_double_64_int fcvtms_double_64_int fcvtmu_double_64_int fcvtzs_double_64_int
        fcvtzu_double_64_int fmov_top128_64 :
      InstructionId
  fmov_64_top128 fmov_reg_single fabs_single fneg_single fsqrt_single fcvt_single_double :
      InstructionId
  fcvt_single_half frintn_single frintp_single frintm_single frintz_single frinta_single :
      InstructionId
  frintx_single frinti_single fmov_reg_double fabs_double fneg_double fsqrt_double : InstructionId
  fcvt_double_single fcvt_double_half frintn_double frintp_double frintm_double frintz_double :
      InstructionId
  frinta_double frintx_double frinti_double fcvt_half_single fcvt_half_double fcmp_single :
      InstructionId
  fcmp_single_zero fcmpe_single fcmpe_single_zero fcmp_double fcmp_double_zero fcmpe_double :
      InstructionId
  fcmpe_double_zero fmov_imm_single fmov_imm_double fccmp_single fccmpe_single fccmp_double :
      InstructionId
  fccmpe_double fmul_single fdiv_single fadd_single fsub_single fmax_single : InstructionId
  fmin_single fmaxnm_single fminnm_single fnmul_single fmul_double fdiv_double : InstructionId
  fadd_double fsub_double fmax_double fmin_double fmaxnm_double fminnm_double : InstructionId
  fnmul_double fcsel_single fcsel_double fmadd_single fmsub_single fnmadd_single : InstructionId
  fnmsub_single fmadd_double fmsub_double fnmadd_double fnmsub_double aese : InstructionId
  aesd aesmc aesimc sha1c sha1p sha1m : InstructionId
  sha1su0 sha256h sha256h2 sha256su1 sha1h sha1su1 : InstructionId
  sha256su0 dup_element_scalar suqadd_scalar sqabs_scalar cmgt_scalar_zero cmeq_scalar_zero :
      InstructionId
  cmlt_scalar_zero abs_scalar sqxtn_scalar fcvtns_scalar fcvtms_scalar fcvtas_scalar : InstructionId
  scvtf_scalar_int fcmgt_scalar_zero fcmeq_scalar_zero fcmlt_scalar_zero fcvtps_scalar
        fcvtzs_scalar_int :
      InstructionId
  frecpe_scalar frecpx_scalar usqadd_scalar sqneg_scalar cmge_scalar_zero cmle_scalar_zero :
      InstructionId
  neg_scalar sqxtun_scalar uqxtn_scalar fcvtxn_scalar fcvtnu_scalar fcvtmu_scalar : InstructionId
  fcvtau_scalar ucvtf_scalar_int fcmge_scalar_zero fcmle_scalar_zero fcvtpu_scalar
        fcvtzu_scalar_int :
      InstructionId
  frsqrte_scalar addp_scalar fmaxnmp_scalar faddp_scalar fmaxp_scalar fminnmp_scalar : InstructionId
  fminp_scalar sqdmlal_scalar sqdmlsl_scalar sqdmull_scalar sqadd_scalar sqsub_scalar :
      InstructionId
  cmgt_scalar_reg cmge_scalar_reg sshl_scalar sqshl_scalar_reg srshl_scalar sqrshl_scalar :
      InstructionId
  add_scalar cmtst_scalar sqdmulh_scalar fmulx_scalar fcmeq_scalar_reg frecps_scalar : InstructionId
  frsqrts_scalar uqadd_scalar uqsub_scalar cmhi_scalar_reg cmhs_scalar_reg ushl_scalar :
      InstructionId
  uqshl_scalar_reg urshl_scalar uqrshl_scalar sub_scalar cmeq_scalar_reg sqrdmulh_scalar :
      InstructionId
  fcmge_scalar_reg facge_scalar fabd_scalar fcmgt_scalar_reg facgt_scalar sshr_scalar :
      InstructionId
  ssra_scalar srshr_scalar srsra_scalar shl_scalar sqshl_scalar_imm sqshrn_scalar : InstructionId
  sqrshrn_scalar scvtf_scalar_fixed fcvtzs_scalar_fixed ushr_scalar usra_scalar urshr_scalar :
      InstructionId
  ursra_scalar sri_scalar sli_scalar sqshlu_scalar uqshl_scalar_imm sqshrun_scalar : InstructionId
  sqrshrun_scalar uqshrn_scalar uqrshrn_scalar ucvtf_scalar_fixed fcvtzu_scalar_fixed
        sqdmlal_scalar_element :
      InstructionId
  sqdmlsl_scalar_element sqdmull_scalar_element sqdmulh_scalar_element sqrdmulh_scalar_element
        fmla_scalar_element fmls_scalar_element :
      InstructionId
  fmul_scalar_element fmulx_scalar_element tbl_one_reg tbx_one_reg tbl_two_reg tbx_two_reg :
      InstructionId
  tbl_three_reg tbx_three_reg tbl_four_reg tbx_four_reg uzp1 trn1 : InstructionId
  zip1 uzp2 trn2 zip2 ext dup_element_vec : InstructionId
  dup_general smov_32 umov_32 ins_general smov_64 umov_64 : InstructionId
  ins_element rev64_vec rev16_vec saddlp_vec suqadd_vec cls_vec : InstructionId
  cnt_vec sadalp_vec sqabs_vec cmgt_vec_zero cmeq_vec_zero cmlt_vec_zero : InstructionId
  abs_vec xtn_vec xtn2_vec sqxtn_vec sqxtn2_vec fcvtn_vec : InstructionId
  fcvtn2_vec fcvtl_vec fcvtl2_vec frintn_vec frintm_vec fcvtns_vec : InstructionId
  fcvtms_vec fcvtas_vec scvtf_vec_int fcmgt_vec_zero fcmeq_vec_zero fcmlt_vec_zero : InstructionId
  fabs_vec frintp_vec frintz_vec fcvtps_vec fcvtzs_vec_int urecpe_vec : InstructionId
  frecpe_vec rev32_vec uaddlp_vec usqadd_vec clz_vec uadalp_vec : InstructionId
  sqneg_vec cmge_vec_zero cmle_vec_zero neg_vec sqxtun_vec sqxtun2_vec : InstructionId
  shll_vec shll2_vec uqxtn_vec uqxtn2_vec fcvtxn_vec fcvtxn2_vec : InstructionId
  frinta_vec frintx_vec fcvtnu_vec fcvtmu_vec fcvtau_vec ucvtf_vec_int : InstructionId
  not_vec rbit_vec fcmge_vec_zero fcmle_vec_zero fneg_vec frinti_vec : InstructionId
  fcvtpu_vec fcvtzu_vec_int ursqrte_vec frsqrte_vec fsqrt_vec saddlv_vec : InstructionId
  smaxv_vec sminv_vec addv_vec uaddlv_vec umaxv_vec uminv_vec : InstructionId
  fmaxnmv_vec fmaxv_vec fminnmv_vec fminv_vec saddl saddl2 : InstructionId
  saddw saddw2 ssubl ssubl2 ssubw ssubw2 : InstructionId
  addhn addhn2 sabal sabal2 subhn subhn2 : InstructionId
  sabdl sabdl2 smlal_vec smlal2_vec sqdmlal_vec sqdmlal2_vec : InstructionId
  smlsl_vec smlsl2_vec sqdmlsl_vec sqdmlsl2_vec smull_vec smull2_vec : InstructionId
  sqdmull_vec sqdmull2_vec pmull pmull2 uaddl uaddl2 : InstructionId
  uaddw uaddw2 usubl usubl2 usubw usubw2 : InstructionId
  raddhn raddhn2 uabal uabal2 rsubhn rsubhn2 : InstructionId
  uabdl uabdl2 umlal_vec umlal2_vec umlsl_vec umlsl2_vec : InstructionId
  umull_vec umull2_vec shadd_vec sqadd_vec srhadd_vec shsub_vec : InstructionId
  sqsub_vec cmgt_vec_reg cmge_vec_reg sshl_vec sqshl_vec_reg srshl_vec : InstructionId
  sqrshl_vec smax_vec smin_vec sabd_vec saba_vec add_vec : InstructionId
  cmtst_vec mla_vec mul_vec smaxp_vec sminp_vec sqdmulh_vec : InstructionId
  addp_vec fmaxnm_vec fmla_vec fadd_vec fmulx_vec fcmeq_vec_reg : InstructionId
  fmax_vec frecps_vec and_vec bic_vec_reg fminnm_vec fmls_vec : InstructionId
  fsub_vec fmin_vec frsqrts_vec orr_vec_reg orn_vec uhadd_vec : InstructionId
  uqadd_vec urhadd_vec uhsub_vec uqsub_vec cmhi_vec_reg cmhs_vec_reg : InstructionId
  ushl_vec uqshl_vec_reg urshl_vec uqrshl_vec umax_vec umin_vec : InstructionId
  uabd_vec uaba_vec sub_vec cmeq_vec_reg mls_vec pmul_vec : InstructionId
  umaxp_vec uminp_vec sqrdmulh_vec fmaxnmp_vec faddp_vec fmul_vec : InstructionId
  fcmge_vec_reg facge_vec fmaxp_vec fdiv_vec eor_vec bsl_vec : InstructionId
  fminnmp_vec fabd_vec fcmgt_vec_reg facgt_vec fminp_vec bit_vec : InstructionId
  bif_vec movi_32_shifted_imm orr_vec_imm_32 movi_16_shifted_imm orr_vec_imm_16
        movi_32_shifting_ones :
      InstructionId
  movi_8_imm fmov_vec_imm_single mvni_32_shifted_imm bic_vec_imm_32 mvni_16_shifted_imm
        bic_vec_imm_16 :
      InstructionId
  mvni_32_shifting_ones movi_64_scalar movi_64_vec fmov_vec_imm_double sshr_vec ssra_vec :
      InstructionId
  srshr_vec srsra_vec shl_vec sqshl_vec_imm shrn_vec shrn2_vec : InstructionId
  rshrn_vec rshrn2_vec sqshrn_vec sqshrn2_vec sqrshrn_vec sqrshrn2_vec : InstructionId
  sshll_vec sshll2_vec scvtf_vec_fixed fcvtzs_vec_fixed ushr_vec usra_vec : InstructionId
  urshr_vec ursra_vec sri_vec sli_vec sqshlu_vec uqshl_vec_imm : InstructionId
  sqshrun_vec sqshrun2_vec sqrshrun_vec sqrshrun2_vec uqshrn_vec uqshrn2_vec : InstructionId
  uqrshrn_vec uqrshrn2_vec ushll_vec ushll2_vec ucvtf_vec_fixed fcvtzu_vec_fixed : InstructionId
  smlal_vec_element smlal2_vec_element sqdmlal_vec_element sqdmlal2_vec_element smlsl_vec_element
        smlsl2_vec_element :
      InstructionId
  sqdmlsl_vec_element sqdmlsl2_vec_element mul_vec_element smull_vec_element smull2_vec_element
        sqdmull_vec_element :
      InstructionId
  sqdmull2_vec_element sqdmulh_vec_element sqrdmulh_vec_element fmla_vec_element fmls_vec_element
        fmul_vec_element :
      InstructionId
  mla_vec_element umlal_vec_element umlal2_vec_element mls_vec_element umlsl_vec_element
        umlsl2_vec_element :
      InstructionId
  umull_vec_element umull2_vec_element fmulx_vec_element : InstructionId
